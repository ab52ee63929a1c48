-- ===== src/Storage/Results/Pruning.antt =====
-- ResultStorage.prune_completed_scan_records of app/storage/results.py. Statements that the code cuts
-- into chunks of 500 identifiers are one statement here. A deleted job takes its rows along by the
-- schema's ON DELETE CASCADE. `scan_of` is json_extract(metadata_json, '$.scan_id'), where it is a text.
pub mod Sublists
pub mod Kept
pub mod Linked
pub mod Examples
use os_scanner.Prelude.{
  ℕ, zero, suc, ◌*◌, min, max, String, Bool, true, false, not, ◌&&◌, ◌||◌, Option, none, some, List,
  [], ◌∷◌, ◌++◌, ◌==◌, str_eq, leb, if◌then◌else◌, map, length, take, select, any, find, Result, ok,
  err, guard, ◌>>=◌, ◌>>◌, value_error,
}
use os_scanner.Prelude.Text.{text_lt}
use os_scanner.Storage.Identifier.{clean_text}
use os_scanner.Storage.Scans.{Job, History, Finding, CollectorState, Payload, SnapshotRow, Tables}
use os_scanner.Storage.Scans.Jobs.{order_by, pair_lt}
use os_scanner.Storage.Uploads.{
  Upload, Status, pending, in_flight, succeeded, dead, is_succeeded, find_upload,
}

-- scan_results
pub record ScanResult : Type 0 where
  pub result_id : ℕ
  pub scan_id : String
  pub endpoint_id : Option String
  pub result_type : String
  pub target : Option String
  pub schema_version : String
  pub scanner_version : Option String
  pub policy_version : Option String
  pub status : String
  pub payload_hash : String
  pub created_at : String
  pub updated_at : String

-- The tables that pruning reads and writes.
pub record Archive : Type 0 where
  pub tables : Tables
  pub uploads : List Upload
  pub results : List ScanResult
  pub result_payloads : List Payload

abbrev pub listed : String → List String → Bool
listed id ids = any (λ x. str_eq x id) ids

-- status IN ('COMPLETED','FAILED')
abbrev pub is_done : Job → Bool
is_done j = str_eq j.status "COMPLETED" || str_eq j.status "FAILED"

-- COALESCE(completed_at,updated_at)
abbrev pub finished_at : Job → String
finished_at j = elim j.completed_at [ none ↦ j.updated_at | some t ↦ t ]

unfoldable pub drop {ℓ} : {A : Type ℓ} → ℕ → List A → List A
drop zero xs = xs
drop (suc n) [] = []
drop (suc n) (x ∷ xs) = drop n xs

unfoldable pub aged : String → ℕ → List Job → List Job
unfolding order_by select
aged older_than limit jobs = take limit (
    order_by (λ (a b : Job). pair_lt (finished_at a) a.scan_id (finished_at b) b.scan_id)
      (select (λ (j : Job). is_done j && text_lt (finished_at j) older_than) jobs))

unfoldable pub overflow : ℕ → ℕ → List Job → List Job
unfolding order_by select drop
overflow offset limit jobs = take limit (
    drop offset (
      order_by (λ (a b : Job). pair_lt (finished_at b) b.scan_id (finished_at a) a.scan_id)
        (select is_done jobs)))

-- list(dict.fromkeys(ids))
unfoldable pub unique : List String → List String
unfolding select
unique [] = []
unique (x ∷ xs) = x ∷ select (λ y. not (str_eq x y)) (unique xs)

-- The snapshot has the greatest id of its endpoint.
unfoldable pub is_latest : List SnapshotRow → SnapshotRow → Bool
unfolding any
is_latest rows row = not (
    any
      (λ (r : SnapshotRow).
        str_eq r.endpoint_id row.endpoint_id && not (leb r.snapshot_id row.snapshot_id))
      rows)

-- replacement.status = 'SUCCEEDED', for the row that superseded a dead upload
abbrev pub is_replaced : List Upload → Upload → Bool
is_replaced uploads u = elim u.superseded_by [
  | none ↦ false
  | some id ↦ elim (find_upload id uploads) [ none ↦ false | some r ↦ is_succeeded r.status ]
]

unfoldable pub is_undelivered : List Upload → Upload → Bool
unfolding find_upload
is_undelivered uploads u = elim u.status [
  | pending ↦ true
  | in_flight ↦ true
  | succeeded ↦ false
  | dead ↦ not (is_replaced uploads u)
]

abbrev pub is_of_any : List String → SnapshotRow → Bool
is_of_any ids row = listed row.scan_id ids

-- previous_snapshot_id IN (…)
abbrev pub follows : List String → List SnapshotRow → SnapshotRow → Bool
follows ids rows row = elim row.previous_snapshot_id [
  | none ↦ false
  | some id ↦ any (λ (r : SnapshotRow). r.snapshot_id == id && is_of_any ids r) rows
]

-- The child of a removed snapshot becomes a full baseline.
unfoldable pub detach : List String → List SnapshotRow → SnapshotRow → SnapshotRow
unfolding any
detach ids rows row =
    if follows ids rows row
    then record row {
      previous_snapshot_id = none;
      changed = true;
      diff_json = "{\"changed\":true,\"changes\":[],\"initial\":true}";
    }
    else row

-- DELETE FROM scan_jobs for the identifiers, with what refers to them.
unfoldable pub delete_jobs : List String → Tables → Tables
unfolding select any
delete_jobs ids t = record t {
  jobs = select (λ (j : Job). not (listed j.scan_id ids)) t.jobs;
  history = select (λ (h : History). not (listed h.scan_id ids)) t.history;
  findings = select (λ (f : Finding). not (listed f.scan_id ids)) t.findings;
  collectors = select (λ (c : CollectorState). not (listed c.scan_id ids)) t.collectors;
  snapshots = select (λ (r : SnapshotRow). not (listed r.scan_id ids)) t.snapshots;
}

-- The payloads that some remaining snapshot has.
unfoldable pub delete_payloads : Tables → Tables
unfolding select any
delete_payloads t = record t {
  payloads =
      select
        (λ (p : Payload).
          any (λ (r : SnapshotRow). str_eq r.payload_hash p.payload_hash) t.snapshots)
        t.payloads;
}

unfoldable pub remove : List String → Archive → Archive
unfolding detach delete_jobs delete_payloads select any
remove ids d =
    let rows = d.tables.snapshots in
    let detached : Tables = record d.tables { snapshots = map (detach ids rows) rows } in
    let results = select (λ (r : ScanResult). not (listed r.scan_id ids)) d.results in
    record d {
      tables = delete_payloads (delete_jobs ids detached);
      results = results;
      result_payloads =
          select
            (λ (p : Payload).
              any (λ (r : ScanResult). str_eq r.payload_hash p.payload_hash) results)
            d.result_payloads;
    }

-- {clean_identifier(scan_id, "protected_scan_id") for scan_id in protected_scan_ids}
unfoldable pub clean_all : List String → Result (List String)
unfolding clean_text
clean_all [] = ok []
clean_all (id ∷ ids) =
    let rest = clean_all ids in clean_text id 256 >>= λ x. rest >>= λ xs. ok (x ∷ xs)

module _ (scan_of : String → Option String) where
  abbrev pub is_of : String → Upload → Bool
  is_of id u = elim (scan_of u.metadata_json) [ none ↦ false | some s ↦ str_eq s id ]

  -- An upload of the scan is not delivered yet.
  unfoldable pub is_blocked : List Upload → String → Bool
  unfolding is_undelivered any
  is_blocked uploads id = any (λ u. is_undelivered uploads u && is_of id u) uploads

  -- scan_id in latest
  unfoldable pub is_baseline : List SnapshotRow → String → Bool
  unfolding is_latest any
  is_baseline rows id = any (λ (r : SnapshotRow). str_eq r.scan_id id && is_latest rows r) rows

  abbrev pub is_removable : List String → Archive → String → Bool
  is_removable protected d id =
      not (listed id protected)
      && not (is_baseline d.tables.snapshots id)
      && not (is_blocked d.uploads id)

  unfoldable pub selected : String → ℕ → List String → ℕ → Archive → List String
  unfolding aged overflow unique is_blocked is_baseline select
  selected older_than max_completed_scans protected limit d =
      let candidate_limit = min 100_000 (max (limit * 4) limit) in
      let jobs = d.tables.jobs in
      take limit (
        select (is_removable protected d) (
          unique (
            map (λ (j : Job). j.scan_id)
              (aged older_than candidate_limit jobs
                ++ overflow max_completed_scans candidate_limit jobs))))

  -- The payloads without a snapshot are deleted only if some scan is.
  unfoldable pub prune : List String → Archive → ℕ × Archive
  unfolding remove
  prune [] d = (0, d)
  prune (id ∷ ids) d = (length (id ∷ ids), remove (id ∷ ids) d)

  unfoldable pub prune_completed_scan_records :
      String → ℕ → List String → ℕ → Archive → Result (ℕ × Archive)
  unfolding clean_all selected prune
  prune_completed_scan_records older_than max_completed_scans protected_scan_ids limit d =
      guard (leb 1 max_completed_scans && leb max_completed_scans 1_000_000) value_error
      >> (guard (leb 1 limit && leb limit 100_000) value_error
          >> (clean_all protected_scan_ids >>= λ protected.
              ok (prune (selected older_than max_completed_scans protected limit d) d)))
