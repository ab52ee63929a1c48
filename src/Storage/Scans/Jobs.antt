-- ===== src/Storage/Scans/Jobs.antt =====
-- Endpoints and scan jobs: app/storage/jobs.py, from `upsert_endpoint` to `terminal_scan_jobs`.
use os_scanner.Prelude.{
  ℕ, String, Bool, true, false, not, ◌&&◌, ◌||◌, Option, none, some, List, [], ◌∷◌, ◌++◌, str_eq,
  if◌then◌else◌, any, update, select, map, take, leb, Result, ok, err, ◌>>=◌, ◌>>◌, guard, is_none,
  type_error, value_error, idempotency_conflict,
}
use os_scanner.Prelude.Text.{text_lt}
use os_scanner.Json.{Json, text, object, Fields, end, lookup, get, truthy}
use os_scanner.Storage.Runtime.{Runtime, hash_text, parse_json}
use os_scanner.Storage.Identifier.{clean_text, clean_identifier}
use os_scanner.Storage.Scans.{
  Endpoint, Job, Tables, Values, str_of, coalesce, is_endpoint, is_job, find_job, find_endpoint,
  ensure_endpoint, ensure_owner,
}

-- ORDER BY, as a stable insertion sort by a strict order of the rows.
unfoldable pub insert_row {ℓ} : {A : Type ℓ} → (A → A → Bool) → A → List A → List A
insert_row before x [] = x ∷ []
insert_row before x (y ∷ ys) = if before y x then y ∷ insert_row before x ys else x ∷ y ∷ ys

unfoldable pub order_by {ℓ} : {A : Type ℓ} → (A → A → Bool) → List A → List A
unfolding insert_row
order_by before [] = []
order_by before (x ∷ xs) = insert_row before x (order_by before xs)

-- (a, b) < (c, d) on pairs of texts
abbrev pub pair_lt : String → String → String → String → Bool
pair_lt a b c d = text_lt a c || (str_eq a c && text_lt b d)

-- mapping.get(name, default)
unfoldable pub get_or : String → Json → Fields → Json
unfolding lookup
get_or name default fields = elim (lookup name fields) [ none ↦ default | some value ↦ value ]

-- `clean_identifier(value, …) if value else None`
unfoldable pub clean_optional : Json → Result (Option String)
unfolding truthy clean_identifier
clean_optional value =
    if truthy value then (clean_identifier value 256 >>= λ id. ok (some id)) else ok none

module _ (lib : Runtime) (values : Values) where
  abbrev pub fresh_endpoint : String → String → Option String → Option String → String → Endpoint
  fresh_endpoint id serialized enrolled_at last_seen_at now = record {
    endpoint_id = id;
    state_json = serialized;
    state_hash = hash_text lib serialized;
    enrolled_at = enrolled_at;
    last_seen_at = last_seen_at;
    created_at = now;
    updated_at = now;
  }

  -- ON CONFLICT(endpoint_id) DO UPDATE
  abbrev pub replace_endpoint : Endpoint → Endpoint → Endpoint
  replace_endpoint excluded old = record old {
    state_json = excluded.state_json;
    state_hash = excluded.state_hash;
    enrolled_at = coalesce excluded.enrolled_at old.enrolled_at;
    last_seen_at = coalesce excluded.last_seen_at old.last_seen_at;
    updated_at = excluded.updated_at;
  }

  unfoldable pub upsert_endpoint :
      String → Json → Option String → Option String → String → Tables → Result Tables
  unfolding clean_text any update
  upsert_endpoint endpoint_id state enrolled_at last_seen_at now t =
      clean_text endpoint_id 256 >>= λ id.
      let row : Endpoint =
        fresh_endpoint id (lib.canonical_json state) enrolled_at last_seen_at now in
      ok (
        if any (is_endpoint id) t.endpoints
        then record t { endpoints = update (is_endpoint id) (replace_endpoint row) t.endpoints }
        else record t { endpoints = t.endpoints ++ row ∷ [] })

  -- The row and its parsed state.
  unfoldable pub get_endpoint : String → Tables → Result (Option (Endpoint × Json))
  unfolding clean_text find_endpoint
  get_endpoint endpoint_id t = clean_text endpoint_id 256 >>= λ id. elim (find_endpoint id t) [
    | none ↦ ok none
    | some row ↦ parse_json lib row.state_json >>= λ state. ok (some (row, state))
  ]

  unfoldable pub list_endpoint_ids : Bool → ℕ → Tables → Result (List String)
  unfolding order_by select
  list_endpoint_ids enrolled_only limit t =
      guard (leb 1 limit && leb limit 10000) value_error
      >> ok (
          map (λ (e : Endpoint). e.endpoint_id)
            (take limit (
              order_by
                (λ (a b : Endpoint). pair_lt a.created_at a.endpoint_id b.created_at b.endpoint_id)
                (select (λ (e : Endpoint). not (enrolled_only && is_none e.enrolled_at))
                  t.endpoints))))

  -- A job as `create_scan_job` reads it, before the transaction.
  pub record JobColumns : Type 0 where
    pub scan_id : String
    pub endpoint_id : Option String
    pub scan_type : String
    pub status : String
    pub authorization_json : String
    pub requested_at : String
    pub job_json : String
    pub policy : Json
    pub initiator : Json
    pub target : Json

  unfoldable pub read_job : Fields → String → Result (JobColumns)
  unfolding clean_identifier clean_optional get_or get truthy
  read_job job now = clean_identifier (get "scan_id" job) 256 >>= λ scan_id.
      clean_optional (get "endpoint_id" job) >>= λ endpoint_id.
      clean_identifier (get_or "scan_type" (text "UNKNOWN") job) 64 >>= λ scan_type.
      clean_identifier (get_or "status" (text "PENDING") job) 64 >>= λ status. ok (record {
        scan_id = scan_id;
        endpoint_id = endpoint_id;
        scan_type = scan_type;
        status = status;
        authorization_json =
            lib.canonical_json
              (get_or "authorization" (get_or "authorization_metadata" (object end) job) job);
        requested_at =
            if truthy (get "requested_at" job) then str_of values (get "requested_at" job) else now;
        job_json = lib.canonical_json (object job);
        policy = get "policy_id" job;
        initiator = get "initiator" job;
        target = get "target" job;
      })

  -- UPDATE scan_jobs SET …, whose three bound values may be refused
  unfoldable pub replace_job : JobColumns → Job → Result Job
  replace_job c old = values.bind c.policy >>= λ policy_id. values.bind c.initiator >>= λ initiator.
      values.bind c.target >>= λ target. ok (record old {
        endpoint_id = c.endpoint_id;
        scan_type = c.scan_type;
        policy_id = policy_id;
        status = c.status;
        authorization_json = c.authorization_json;
        initiator = initiator;
        target = target;
        requested_at = c.requested_at;
        job_json = c.job_json;
        job_hash = hash_text lib c.job_json;
        updated_at = c.requested_at;
      })

  -- INSERT: the columns that the statement does not name are null.
  abbrev pub empty_job : String → Job
  empty_job scan_id = record {
    scan_id = scan_id;
    endpoint_id = none;
    scan_type = "";
    policy_id = none;
    status = "";
    authorization_json = "";
    initiator = none;
    target = none;
    requested_at = "";
    started_at = none;
    completed_at = none;
    result_status = none;
    failure = none;
    job_json = "";
    job_hash = "";
    updated_at = "";
  }

  -- The transaction: a new job is inserted, a placeholder replaced, and an equal job left alone.
  unfoldable pub write_job : JobColumns → Tables → Result (Bool × Tables)
  unfolding ensure_endpoint find_job update replace_job
  write_job c t0 =
      let t = ensure_owner lib c.endpoint_id c.requested_at t0 in
      elim (find_job c.scan_id t) [
        | none ↦ replace_job c (empty_job c.scan_id) >>= λ new.
            ok (true, record t { jobs = t.jobs ++ new ∷ [] })
        | some old ↦
            if str_eq old.scan_type "UNKNOWN"
            then (replace_job c old >>= λ new.
                ok (true, record t { jobs = update (is_job c.scan_id) (λ (j : Job). new) t.jobs }))
            else if str_eq old.job_hash (hash_text lib c.job_json)
            then ok (false, t)
            else err idempotency_conflict
      ]

  unfoldable pub create_scan_job : Json → String → Tables → Result (Bool × Tables)
  unfolding read_job write_job
  create_scan_job (object job) now t = read_job job now >>= λ columns. write_job columns t
  create_scan_job _ now t = err type_error
