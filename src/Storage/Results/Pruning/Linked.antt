-- ===== src/Storage/Results/Pruning/Linked.antt =====
-- prune_completed_scan_records and the references between the tables.
use os_scanner.Prelude.{
  ℕ, String, ◌≡◌, refl, sym, ap, Bool, true, false, not, ◌&&◌, Option, none, some, List, [], ◌∷◌,
  ◌==◌, str_eq, str_eq_refl, eq_iff, arith, select, any, map, All, All-imp, All-and, All-select,
  Bool-cases, inl, inr, ok, subst, leb, value_error, guarded, >>=-eq-ok, ok-injective,
}
use os_scanner.Storage.Scans.{
  Job, History, Finding, CollectorState, Payload, SnapshotRow, Tables, is_job,
}
use os_scanner.Storage.Results.{has_hash}
use os_scanner.Storage.Results.Pruning.{
  Archive, ScanResult, listed, follows, is_of_any, detach, delete_jobs, delete_payloads, remove,
  clean_all, selected, prune, prune_completed_scan_records,
}
use os_scanner.Storage.Results.Pruning.Sublists.{any-select, All-some_of}

abbrev pub has_job : Tables → String → Bool
has_job t id = any (is_job id) t.jobs

abbrev pub has_row : List SnapshotRow → ℕ → Bool
has_row rows id = any (λ (r : SnapshotRow). r.snapshot_id == id) rows

-- previous_snapshot_id is null or the id of a snapshot
abbrev pub IsAttached : List SnapshotRow → Option ℕ → Type 0
IsAttached rows none = Unit {0}
IsAttached rows (some id) = has_row rows id ≡ true

-- The foreign keys: every row of a scan has its job, every snapshot its payload and the snapshot before
-- it, and every result its payload.
pub record IsLinked (d : Archive) : Type 0 where
  pub history : All (λ (h : History). has_job d.tables h.scan_id ≡ true) d.tables.history
  pub findings : All (λ (f : Finding). has_job d.tables f.scan_id ≡ true) d.tables.findings
  pub collectors :
      All (λ (c : CollectorState). has_job d.tables c.scan_id ≡ true) d.tables.collectors
  pub snapshots : All (λ (r : SnapshotRow). has_job d.tables r.scan_id ≡ true) d.tables.snapshots
  pub payloads :
      All
        (λ (r : SnapshotRow). any (has_hash r.payload_hash) d.tables.payloads ≡ true)
        d.tables.snapshots
  pub previous :
      All
        (λ (r : SnapshotRow). IsAttached d.tables.snapshots r.previous_snapshot_id)
        d.tables.snapshots
  pub results : All (λ (r : ScanResult). has_job d.tables r.scan_id ≡ true) d.results
  pub result_payloads :
      All (λ (r : ScanResult). any (has_hash r.payload_hash) d.result_payloads ≡ true) d.results

module _ (ids : List String) where
  abbrev keep_job : Job → Bool
  keep_job j = not (listed j.scan_id ids)

  -- The job of a row that stays is not deleted.
  job_stays :
      (jobs : List Job) (id : String)
      → listed id ids ≡ false
      → any (is_job id) jobs ≡ true
      → any (is_job id) (select keep_job jobs) ≡ true
  job_stays jobs id out h =
      any-select (is_job id) keep_job jobs
        (λ j e. ap not (subst (λ k. listed k ids ≡ false) (sym ((eq_iff j.scan_id id).0 e)) out)) h

  -- The rows of the remaining scans keep their jobs.
  rows_stay {ℓ} :
      {R : Type ℓ} (scan_id : R → String) (jobs : List Job) (rows : List R)
      → All (λ r. any (is_job (scan_id r)) jobs ≡ true) rows
      → All
          (λ r. any (is_job (scan_id r)) (select keep_job jobs) ≡ true)
          (select (λ r. not (listed (scan_id r) ids)) rows)
  rows_stay scan_id jobs rows h =
      All-select (λ r. any (is_job (scan_id r)) jobs ≡ true) _ (λ r. not (listed (scan_id r) ids))
        rows (λ r own out. job_stays jobs (scan_id r) (ground (arith, out)) own) h

  abbrev keep_row : SnapshotRow → Bool
  keep_row r = not (listed r.scan_id ids)

  module _ (rows : List SnapshotRow) where
    -- Detaching changes neither the ids of a snapshot nor its payload.
    detach_ids :
        (r : SnapshotRow)
        → ((detach ids rows r).snapshot_id ≡ r.snapshot_id)
          × ((detach ids rows r).scan_id ≡ r.scan_id)
          × ((detach ids rows r).payload_hash ≡ r.payload_hash)
    unfolding detach
    detach_ids r = elim (Bool-cases (follows ids rows r)) [
      | inl child ↦ rw child (refl, refl, refl)
      | inr other ↦ rw other (refl, refl, refl)
    ]

    All-detach {κ} :
        (P : SnapshotRow → Type κ) (rs : List SnapshotRow)
        → All (λ r. P (detach ids rows r)) rs
        → All P (map (detach ids rows) rs)
    All-detach P [] h = tt
    All-detach P (r ∷ rs) h = (h.0, All-detach P rs h.1)

    -- A snapshot that no removed scan has is among the remaining ones.
    row_stays :
        (id : ℕ) (rs : List SnapshotRow)
        → has_row rs id ≡ true
        → any (λ (r : SnapshotRow). r.snapshot_id == id && is_of_any ids r) rs ≡ false
        → has_row (select keep_row (map (detach ids rows) rs)) id ≡ true
    unfolding any select
    row_stays id [] h e = h
    row_stays id (r ∷ rs) h e =
        let (same_id, same_scan, _) = detach_ids r in
        ground (arith, same_id, same_scan, row_stays id rs)

    stays-IsAttached :
        (r : SnapshotRow) (previous : Option ℕ)
        → r.previous_snapshot_id ≡ previous
        → IsAttached rows previous
        → IsAttached
            (select keep_row (map (detach ids rows) rows))
            (detach ids rows r).previous_snapshot_id
    unfolding detach
    stays-IsAttached r none e h =
        let is : (detach ids rows r).previous_snapshot_id ≡ none = ground (arith, e) in
        subst (IsAttached (select keep_row (map (detach ids rows) rows))) (sym is) tt
    stays-IsAttached r (some id) e h =
        elim (Bool-cases (any (λ (x : SnapshotRow). x.snapshot_id == id && is_of_any ids x) rows)) [
          | inl gone ↦
              let is : (detach ids rows r).previous_snapshot_id ≡ none = ground (arith, e, gone) in
              subst (IsAttached (select keep_row (map (detach ids rows) rows))) (sym is) tt
          | inr there ↦
              let is : (detach ids rows r).previous_snapshot_id ≡ some id =
                ground (arith, e, there) in
              subst (IsAttached (select keep_row (map (detach ids rows) rows))) (sym is)
                (row_stays id rows h there)
        ]

-- Every row has the payload of some row.
own_hash {ℓ} :
    {R : Type ℓ} (hash_of : R → String) (rows : List R)
    → All (λ r. any (λ x. str_eq (hash_of x) (hash_of r)) rows ≡ true) rows
unfolding any
own_hash hash_of [] = tt
own_hash hash_of (r ∷ rows) = (
  rw (str_eq_refl (hash_of r)) refl,
  All-imp _ _ rows (λ x e. ground (arith, e)) (own_hash hash_of rows),
)

-- The payloads of some rows, where every row's payload was there.
payloads_stay {ℓ} :
    {R : Type ℓ} (hash_of : R → String) (payloads : List Payload) (rows : List R)
    → All (λ r. any (has_hash (hash_of r)) payloads ≡ true) rows
    → All
        (λ r.
          any
            (has_hash (hash_of r))
            (select (λ (p : Payload). any (λ x. str_eq (hash_of x) p.payload_hash) rows) payloads)
          ≡ true)
        rows
payloads_stay hash_of payloads rows h =
    All-imp _ _ rows
      (λ r both.
        any-select (has_hash (hash_of r))
          (λ (p : Payload). any (λ x. str_eq (hash_of x) p.payload_hash) rows) payloads
          (λ p e.
            subst (λ k. any (λ x. str_eq (hash_of x) k) rows ≡ true)
              (sym ((eq_iff p.payload_hash (hash_of r)).0 e)) both.0)
          both.1)
      (All-and _ _ rows (own_hash hash_of rows) h)

remove-IsLinked : (ids : List String) (d : Archive) → IsLinked d → IsLinked (remove ids d)
unfolding remove delete_jobs delete_payloads
remove-IsLinked ids d h =
    let rows = d.tables.snapshots in
    let detached = map (detach ids rows) rows in
    record {
      history = rows_stay ids (λ (x : History). x.scan_id) d.tables.jobs d.tables.history h.history;
      findings =
          rows_stay ids (λ (x : Finding). x.scan_id) d.tables.jobs d.tables.findings h.findings;
      collectors =
          rows_stay ids (λ (x : CollectorState). x.scan_id) d.tables.jobs d.tables.collectors
            h.collectors;
      snapshots =
          rows_stay ids (λ (x : SnapshotRow). x.scan_id) d.tables.jobs detached
            (All-detach ids rows (λ (r : SnapshotRow). any (is_job r.scan_id) d.tables.jobs ≡ true)
              rows
              (All-imp _ _ rows
                (λ r own.
                  subst (λ k. any (is_job k) d.tables.jobs ≡ true) (sym (detach_ids ids rows r).1)
                    own)
                h.snapshots));
      payloads =
          payloads_stay (λ (r : SnapshotRow). r.payload_hash) d.tables.payloads _
            (All-some_of _ (keep_row ids) detached (
              All-detach ids rows
                (λ (r : SnapshotRow). any (has_hash r.payload_hash) d.tables.payloads ≡ true) rows
                (All-imp _ _ rows
                  (λ r own.
                    subst (λ k. any (has_hash k) d.tables.payloads ≡ true)
                      (sym (detach_ids ids rows r).2) own)
                  h.payloads)));
      previous = All-some_of _ (keep_row ids) detached (
          All-detach ids rows
            (λ (r : SnapshotRow).
              IsAttached (select (keep_row ids) detached) r.previous_snapshot_id)
            rows
            (All-imp _ _ rows (λ r own. stays-IsAttached ids rows r r.previous_snapshot_id refl own)
              h.previous));
      results = rows_stay ids (λ (x : ScanResult). x.scan_id) d.tables.jobs d.results h.results;
      result_payloads =
          payloads_stay (λ (r : ScanResult). r.payload_hash) d.result_payloads _
            (All-some_of _ (λ (r : ScanResult). not (listed r.scan_id ids)) d.results
              h.result_payloads);
    }

module _ (scan_of : String → Option String) where
  prune-IsLinked : (ids : List String) (d : Archive) → IsLinked d → IsLinked (prune scan_of ids d).1
  unfolding prune
  prune-IsLinked [] d h = h
  prune-IsLinked (id ∷ ids) d h = remove-IsLinked (id ∷ ids) d h

  -- Pruning keeps the references of the tables: where before every history entry, finding, collector
  -- state, snapshot and result had its job, every snapshot and result its payload, and every snapshot that
  -- names a previous one that snapshot, this is so of what it leaves.
  pub prune_completed_scan_records-IsLinked :
      (older_than : String) (max_completed_scans : ℕ) (protected : List String) (limit : ℕ)
      (d : Archive) {n : ℕ} {d' : Archive}
      → IsLinked d
      → prune_completed_scan_records scan_of older_than max_completed_scans protected limit d
        ≡ ok (n, d')
      → IsLinked d'
  unfolding prune_completed_scan_records
  prune_completed_scan_records-IsLinked older_than max_completed_scans protected limit d {n} {d'} h
        e =
      let (_, e1) =
        guarded (leb 1 max_completed_scans && leb max_completed_scans 1_000_000) value_error _ e in
      let (_, e2) = guarded (leb 1 limit && leb limit 100_000) value_error _ e1 in
      let (cleaned, clean, e3) = >>=-eq-ok (clean_all protected) _ e2 in
      let ids = selected scan_of older_than max_completed_scans cleaned limit d in
      let same : prune scan_of ids d ≡ (n, d') = ok-injective e3 in
      subst (λ r. IsLinked r.1) same (prune-IsLinked ids d h)
