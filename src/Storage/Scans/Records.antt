-- ===== src/Storage/Scans/Records.antt =====
-- The records of a running scan: app/storage/jobs.py, from `update_scan_job` on, and
-- app/storage/base.py's placeholders. `now` is the clock, in ISO format.
use os_scanner.Prelude.{
  ℕ, ◌+◌, String, Bool, false, not, ◌&&◌, ◌||◌, Option, none, some, List, [], ◌∷◌, ◌++◌, str_eq,
  is_text, if◌then◌else◌, any, find, update, select, take, leb, Result, ok, err, ◌>>=◌, ◌>>◌, guard,
  is_none, value_error, storage_error, idempotency_conflict, integrity_error,
}
use os_scanner.Prelude.Text.{is_empty}
use os_scanner.Json.{Json, object, Fields}
use os_scanner.Storage.Runtime.{Runtime, parse_json, clean_error}
use os_scanner.Storage.Identifier.{clean_text}
use os_scanner.Storage.Audit.{same}
use os_scanner.Storage.Scans.{Job, History, Tables, Values, coalesce, is_job, find_job, ensure_scan}
use os_scanner.Storage.Scans.Jobs.{order_by, pair_lt}

-- `value if value else None`, for an optional text
abbrev pub filled : Option String → Option String
filled none = none
filled (some s) = if is_empty s then none else some s

-- The arguments of `update_scan_job` after the identifier.
pub record JobUpdate : Type 0 where
  pub status : String
  pub started_at : Option String
  pub completed_at : Option String
  pub result_status : Option String
  pub failure : Option String

module _ (lib : Runtime) (values : Values) where
  abbrev cleaned_failure : Option String → Option String
  cleaned_failure none = none
  cleaned_failure (some message) = some (clean_error lib message 1024)

  abbrev pub apply_update : JobUpdate → String → Job → Job
  apply_update u now j = record j {
    status = u.status;
    started_at = coalesce u.started_at j.started_at;
    completed_at = coalesce u.completed_at j.completed_at;
    result_status = coalesce u.result_status j.result_status;
    failure = cleaned_failure (filled u.failure);
    updated_at = now;
  }

  unfoldable pub update_scan_job : String → JobUpdate → String → Tables → Result Tables
  unfolding clean_text any update
  update_scan_job scan_id u now t = clean_text scan_id 256 >>= λ id.
      clean_text u.status 64 >>= λ status.
      if any (is_job id) t.jobs
      then ok (record t {
        jobs = update (is_job id) (apply_update (record u { status = status }) now) t.jobs;
      })
      else err storage_error

  -- The row, its parsed authorization and its parsed job.
  unfoldable pub get_scan_job : String → Tables → Result (Option (Job × Json × Json))
  unfolding clean_text find_job
  get_scan_job scan_id t = clean_text scan_id 256 >>= λ id. elim (find_job id t) [
    | none ↦ ok none
    | some row ↦ parse_json lib row.authorization_json >>= λ authorization.
        parse_json lib row.job_json >>= λ job. ok (some (row, authorization, job))
  ]

  pub record TerminalJob : Type 0 where
    pub scan_id : String
    pub status : String
    pub result_status : String
    pub job : Json

  -- The selected rows, parsed in turn.
  unfoldable pub parse_terminal : List Job → Result (List TerminalJob)
  parse_terminal [] = ok []
  parse_terminal (j ∷ js) =
      let rest = parse_terminal js in
      elim j.result_status [
        | none ↦ rest
        | some result ↦ parse_json lib j.job_json >>= λ job. rest >>= λ others. ok (
            record { scan_id = j.scan_id; status = j.status; result_status = result; job = job }
            ∷ others)
      ]

  -- A terminal job whose status has not been queued for the cloud.
  unfoldable pub is_unqueued : Tables → Job → Bool
  unfolding any
  is_unqueued t j =
      (str_eq j.status "COMPLETED" || str_eq j.status "FAILED")
      && not (is_none j.result_status)
      && not (
          any
            (λ (h : History). str_eq h.scan_id j.scan_id && str_eq h.event "TERMINAL_STATUS_QUEUED")
            t.history)

  unfoldable pub terminal_scan_jobs : ℕ → Tables → Result (List TerminalJob)
  unfolding parse_terminal is_unqueued order_by select
  terminal_scan_jobs limit t =
      guard (leb 1 limit && leb limit 10000) value_error
      >> parse_terminal (
          take limit (
            order_by (λ (a b : Job). pair_lt a.updated_at a.scan_id b.updated_at b.scan_id)
              (select (is_unqueued t) t.jobs)))

  abbrev has_key : String → History → Bool
  has_key key h = is_text key h.idempotency_key

  -- `clean_identifier(key) if key`
  abbrev clean_key : Option String → Result (Option String)
  clean_key none = ok none
  clean_key (some key) =
      if is_empty key then ok (some key) else (clean_text key 256 >>= λ k. ok (some k))

  -- The row that an earlier call with the same key wrote.
  abbrev earlier : Option String → List History → Option History
  earlier none rows = none
  earlier (some key) rows = if is_empty key then none else find (has_key key) rows

  -- UNIQUE(idempotency_key), which an insertion may violate with the empty key only
  abbrev is_taken : Option String → List History → Bool
  is_taken none rows = false
  is_taken (some key) rows = any (has_key key) rows

  -- The transaction: the same key gives back the same row, or raises if the content differs.
  unfoldable pub write_history :
      String
      → String
      → Option String
      → String
      → Option String
      → String
      → Tables
      → Result (ℕ × Tables)
  unfolding ensure_scan find any
  write_history scan_id event status details key now t0 =
      let t = ensure_scan lib scan_id none now t0 in
      elim (earlier key t.history) [
        | some row ↦
            if str_eq row.event event && same row.status status && str_eq row.details_json details
            then ok (row.history_id, t)
            else err idempotency_conflict
        | none ↦
            if is_taken key t.history
            then err integrity_error
            else ok (
              t.next_history_id,
              record t {
                history =
                    t.history
                    ++ record {
                      history_id = t.next_history_id;
                      scan_id = scan_id;
                      event = event;
                      status = status;
                      details_json = details;
                      idempotency_key = key;
                      created_at = now;
                    }
                      ∷ [];
                next_history_id = t.next_history_id + 1;
              },
            )
      ]

  unfoldable pub append_scan_history :
      String
      → String
      → Option String
      → Fields
      → Option String
      → String
      → Tables
      → Result (ℕ × Tables)
  unfolding clean_text write_history
  append_scan_history scan_id event status details key now t = clean_text scan_id 256 >>= λ id.
      clean_text event 128 >>= λ name. clean_key key >>= λ k.
      write_history id name status (lib.canonical_json (object details)) k now t
