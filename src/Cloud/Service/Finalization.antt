-- ===== src/Cloud/Service/Finalization.antt =====
-- next_scan_ready_for_finalization and finalize_scan_report together.
use os_scanner.Prelude.{
  Option, ℕ, String, ◌≡◌, refl, subst, ◌⊎◌, inl, inr, Bool, true, false, leb, none, some,
  Option-cases, Bool-cases, List, [], ◌∷◌, All, All-sort_by, find-All, find, sort_by, insert_by,
  arith, str_eq, ok, if◌then◌else◌,
}
use os_scanner.Json.{Json, text, object, Fields, field, end}
use os_scanner.Cloud.Dict.{at_key, put, at_key-put_same_text}
use os_scanner.Storage.Runtime.{Runtime}
use os_scanner.Cloud.Filed.{IsFiled-values}
use os_scanner.Cloud.Repository.Scans.Changes.{IsFiled, id_of}
use os_scanner.Cloud.Service.History.{ServiceCalls, ServiceCalls-IsFiled}
use os_scanner.Cloud.Repository.{ScanRecord, Repository, audit}
use os_scanner.Cloud.Repository.Scans.{finalize_scan_report, task_states, is_analysed}
use os_scanner.Cloud.Repository.Reads.{scan_records, is_ready, next_scan_ready_for_finalization}

abbrev pub IsComplete : String → Fields → Repository → Type 0
IsComplete scan_id report s =
    (r : ScanRecord) × (at_key str_eq scan_id s.scans ≡ some r)
    × (r.state ≡ "COMPLETE")
    × (r.final_report ≡ some report)

insert_by-All {ℓ κ} :
    {A : Type ℓ} (P : A → Type κ) (key : A → ℕ) (x : A) (xs : List A)
    → All P (insert_by key x xs)
    → All P (x ∷ xs)
unfolding insert_by
insert_by-All P key x [] h = h
insert_by-All P key x (y ∷ ys) h = elim (Bool-cases (leb (key x) (key y))) [
  | inl first ↦ subst (λ b. All P (if b then x ∷ y ∷ ys else y ∷ insert_by key x ys)) first h
  | inr later ↦
      let k : All P (y ∷ insert_by key x ys) =
        subst (λ b. All P (if b then x ∷ y ∷ ys else y ∷ insert_by key x ys)) later h in
      let rest = insert_by-All P key x ys k.1 in (rest.0, (k.0, rest.1))
]

sort_by-All {ℓ κ} :
    {A : Type ℓ} (P : A → Type κ) (key : A → ℕ) (xs : List A) → All P (sort_by key xs) → All P xs
unfolding sort_by
sort_by-All P key [] h = tt
sort_by-All P key (x ∷ xs) h =
    let k = insert_by-All P key x (sort_by key xs) h in (k.0, sort_by-All P key xs k.1)

find-none-All {ℓ} :
    {A : Type ℓ} (p : A → Bool) (xs : List A) → find p xs ≡ none → All (λ x. p x ≡ false) xs
unfolding find
find-none-All p [] e = tt
find-none-All p (x ∷ xs) e = elim (Bool-cases (p x)) [
  | inl hit ↦ absurd (ground (arith, hit, e))
  | inr miss ↦ (miss, find-none-All p xs (ground (arith, miss, e)))
]

module _ (same_number : Json → Json → Bool) where
  abbrev completed : ℕ → Fields → ScanRecord → ScanRecord
  completed now report r = record r {
    state = "COMPLETE";
    final_report = some report;
    updated_at = now;
  }

  ready-IsComplete :
      (now at : ℕ) (report : Fields) (s : Repository) (r : ScanRecord)
      → at_key str_eq r.scan_id s.scans ≡ some r
      → is_ready s.tasks r ≡ true
      → (s' : Repository) × (finalize_scan_report same_number now at r.scan_id report s ≡ ok s')
        × IsComplete r.scan_id report s'
  unfolding finalize_scan_report is_ready audit
  ready-IsComplete now at report s r own ready =
      let unreported : r.final_report ≡ none = elim (Option-cases r.final_report) [
        | inl missing ↦ missing
        | inr (existing, has) ↦ absurd (ground (arith, has, ready))
      ] in
      let analysed : is_analysed (task_states r.scan_id s.tasks end) ≡ true =
        ground (arith, ready) in
      (
        audit r.tenant_id "SCAN_REPORT_FINALIZED" "worker" (text "normalizer") "scan" r.scan_id at
            (field "analysis_states" (object (task_states r.scan_id s.tasks end)) end)
            (record s { scans = put str_eq r.scan_id (completed now report r) s.scans }),
        rw (own, unreported, analysed) refl,
        (
          completed now report r,
          at_key-put_same_text r.scan_id (completed now report r) s.scans,
          refl,
          refl,
        ),
      )

module _ (same_number : Json → Json → Bool) (fromisoformat : String → Option (Option ℕ))
    (lib : Runtime) (finite : String → Bool) (isoformat : ℕ → String) where
  -- After any history of calls on a service whose tables held each scan once, under its identifier, as
  -- empty tables do, either no scan is ready for finalization, or a scan is handed out, its finalization
  -- with any report succeeds, and afterwards it is complete with that report.
  pub finalize_scan_report-progress :
      (first s : Repository) (now at : ℕ) (report : Fields)
      → IsFiled first
      → ServiceCalls same_number fromisoformat lib finite isoformat first s
      → All (λ (r : ScanRecord). is_ready s.tasks r ≡ false) (scan_records s)
        ⊎ ((scan_id : String) × (next_scan_ready_for_finalization s ≡ some scan_id)
            × (s' : Repository) × (finalize_scan_report same_number now at scan_id report s ≡ ok s')
            × IsComplete scan_id report s')
  unfolding next_scan_ready_for_finalization
  finalize_scan_report-progress first s now at report filed calls =
      let oldest = sort_by (λ (r : ScanRecord). r.updated_at) (scan_records s) in
      elim (Option-cases (find (is_ready s.tasks) oldest)) [
        | inl idle ↦ inl (
            sort_by-All (λ (r : ScanRecord). is_ready s.tasks r ≡ false)
              (λ (r : ScanRecord). r.updated_at) (scan_records s)
              (find-none-All (is_ready s.tasks) oldest idle))
        | inr (r, found) ↦
            let keyed =
              IsFiled-values id_of s.scans
                (ServiceCalls-IsFiled same_number fromisoformat lib finite isoformat filed calls) in
            let (own, ready) =
              find-All (λ (r : ScanRecord). at_key str_eq r.scan_id s.scans ≡ some r)
                (is_ready s.tasks) oldest r
                (All-sort_by (λ (r : ScanRecord). at_key str_eq r.scan_id s.scans ≡ some r)
                  (λ (r : ScanRecord). r.updated_at) (scan_records s) keyed)
                found in
            let (s', done, complete) = ready-IsComplete same_number now at report s r own ready in
            inr (r.scan_id, rw (found, next_scan_ready_for_finalization) refl, s', done, complete)
      ]
