-- ===== src/Storage/Uploads/Invariant.antt =====
-- The well-formedness of the table of uploads, over the operations of the queue.
pub mod Claiming
pub mod Settling
pub mod Recovering
pub mod Purging
pub mod Steps
use os_scanner.Prelude.{
  ℕ, zero, suc, ◌+◌, ◌≤◌, ◌<◌, String, ◌≡◌, refl, Bool, true, false, Option, none, some, List, [],
  ◌∷◌, ◌++◌, arith, ◌⊎◌, inl, inr, select, update, All, ok, Result, >>=-eq-ok, leb, ◌>>=◌, subst,
  Option-cases, find, str_eq,
}
use os_scanner.Json.{Json}
use os_scanner.Storage.Runtime.{Runtime, parse_json}
use os_scanner.Storage.Uploads.{
  Upload, Storage, Status, pending, in_flight, succeeded, dead, find_upload, has_id, is_leased_by,
}
use os_scanner.Storage.Uploads.Table.{
  IsRow, IsTable, Earlier, Finds, Anything, All-Anything, IsTable-Finds, find-IsRow, update-IsTable,
  append-IsTable, delete-IsTable,
}
use os_scanner.Storage.Uploads.Causal.{
  link_upload, link_all, backfill_causal_links, link_row, predecessor_in, latest_in_group,
  latest_before, id_of, link_in, causal_group, is_unlinked, fields_or_empty,
}
use native.Mathlib.Numerals.{add-one}
use os_scanner.Storage.Uploads.{EnqueueResult, insert_row}
use os_scanner.Storage.Uploads.Enqueue.{
  Request, Moment, Checked, check_request, same_key, new_upload, insert_upload, enqueue_upload,
}

-- The plain form of `update-IsTable`.
pub update_rows :
    (test : Upload → Bool) (f : Upload → Upload)
    → ((r : Upload) → test r ≡ true → IsRow r → IsRow (f r))
    → ((r : Upload) → (f r).upload_id ≡ r.upload_id)
    → (hi : ℕ) (rows : List Upload) → IsTable 0 hi rows
    → IsTable 0 hi (update test f rows)
update_rows test f keeps same hi rows t =
    update-IsTable Anything test f (λ r _. keeps r) same 0 hi rows (All-Anything rows) t

latest_before-Earlier :
    (group : String) (id : ℕ) (rows : List Upload)
    → Earlier id (id_of (latest_before group id rows))
unfolding latest_before
latest_before-Earlier group id [] = tt
latest_before-Earlier group id (r ∷ rs) = ground (arith, latest_before-Earlier group id rs)

latest_in_group-Earlier :
    (group : String) (lo hi : ℕ) (rows : List Upload)
    → IsTable lo hi rows
    → Earlier hi (id_of (latest_in_group group rows))
unfolding latest_in_group
latest_in_group-Earlier group lo hi [] t = tt
latest_in_group-Earlier group lo hi (r ∷ rs) t =
    ground (arith, latest_in_group-Earlier group (suc r.upload_id) hi rs t.3)

link_in-IsTable :
    (group : Option String) (row : Upload) (hi : ℕ) (rows : List Upload)
    → IsTable 0 hi rows
    → IsTable 0 hi (link_in group row rows)
unfolding link_in
link_in-IsTable none row hi rows t = t
link_in-IsTable (some group) row hi rows t =
    update_rows _ _ (λ r hit k. ground (arith, latest_before-Earlier group row.upload_id rows))
      (λ r. refl) hi rows t

module _ (lib : Runtime) where
  link_upload-IsTable :
      (hi : ℕ) (rows : List Upload) (row : Upload) {rows' : List Upload}
      → link_upload lib rows row ≡ ok rows'
      → IsTable 0 hi rows
      → IsTable 0 hi rows'
  unfolding link_upload
  link_upload-IsTable hi rows row e t =
      let (raw, parsed, linked) =
        >>=-eq-ok (parse_json lib row.metadata_json)
          (λ raw.
            ok (link_in (causal_group lib row.kind (fields_or_empty raw) row.payload) row rows))
          e in
      subst (IsTable 0 hi) (cc linked) (
        link_in-IsTable (causal_group lib row.kind (fields_or_empty raw) row.payload) row hi rows t)

  link_all-IsTable :
      (hi : ℕ) (rows todo : List Upload) {rows' : List Upload}
      → link_all lib rows todo ≡ ok rows'
      → IsTable 0 hi rows
      → IsTable 0 hi rows'
  unfolding link_all
  link_all-IsTable hi rows [] e t = subst (IsTable 0 hi) (cc) t
  link_all-IsTable hi rows (row ∷ rest) e t =
      let (next, linked, others) =
        >>=-eq-ok (link_upload lib rows row) (λ linked. link_all lib linked rest) e in
      link_all-IsTable hi next rest others (link_upload-IsTable hi rows row linked t)

  pub backfill-IsTable :
      (hi : ℕ) (rows : List Upload) {rows' : List Upload}
      → backfill_causal_links lib rows ≡ ok rows'
      → IsTable 0 hi rows
      → IsTable 0 hi rows'
  unfolding backfill_causal_links
  backfill-IsTable hi rows e t = link_all-IsTable hi rows (select is_unlinked rows) e t

-- The table's ids rise and stay below the next one, and each row is well formed.
abbrev pub IsValid : Storage → Type 0
IsValid s = IsTable 0 s.next_upload_id s.uploads

pub Earlier-mono : (a b : ℕ) (o : Option ℕ) → a ≤ b → Earlier a o → Earlier b o
Earlier-mono a b none h e = tt
Earlier-mono a b (some p) h e = omega arith

pub insert_row-IsValid :
    (s : Storage) (new : Upload)
    → IsValid s
    → new.upload_id ≡ s.next_upload_id
    → IsRow new
    → IsValid (insert_row s new)
unfolding insert_row
insert_row-IsValid s new t e n =
    rw add-one (append-IsTable 0 s.next_upload_id s.uploads new t (omega arith) e n)

predecessor_in-Earlier :
    (group : Option String) (hi : ℕ) (rows : List Upload)
    → IsTable 0 hi rows
    → Earlier hi (predecessor_in group rows)
unfolding predecessor_in
predecessor_in-Earlier none hi rows t = tt
predecessor_in-Earlier (some group) hi rows t = latest_in_group-Earlier group 0 hi rows t

module _ (lib : Runtime) where
  check_request_limits :
      (q : Request) (m : Moment) {c : Checked}
      → check_request lib q m ≡ ok c
      → (1 ≤ q.max_attempts) × (q.max_attempts ≤ 100)
  unfolding check_request
  check_request_limits q m e = ground arith

  new_upload-IsRow :
      (q : Request) (c : Checked) (m : Moment) (id : ℕ) (rows : List Upload)
      → 1 ≤ q.max_attempts
      → q.max_attempts ≤ 100
      → IsTable 0 id rows
      → IsRow (new_upload lib q c m id rows)
  unfolding new_upload
  new_upload-IsRow q c m id rows lo hi t = record {
    limited = omega arith;
    positive = lo;
    capped = hi;
    leased = (refl, refl);
    after = predecessor_in-Earlier _ id rows t;
    recovers = tt;
    replaced = inl refl;
  }

  insert_upload-IsValid :
      (q : Request) (c : Checked) (m : Moment) (s : Storage) {r : EnqueueResult} {s' : Storage}
      → 1 ≤ q.max_attempts
      → q.max_attempts ≤ 100
      → insert_upload lib q c m s ≡ ok (r, s')
      → IsValid s
      → IsValid s'
  unfolding insert_upload
  insert_upload-IsValid q c m s {r} {s'} lo hi e t =
      elim (Option-cases (find (same_key c.idempotency_key) s.uploads)) [
        | inr (existing, hit) ↦ subst IsValid {x = s} {y = s'} (ground (arith, hit)) t
        | inl miss ↦
            let new = new_upload lib q c m s.next_upload_id s.uploads in
            subst IsValid {x = insert_row s new} {y = s'} (ground (arith, miss)) (
              insert_row-IsValid s new t refl
                (new_upload-IsRow q c m s.next_upload_id s.uploads lo hi t))
      ]

  pub enqueue_upload-IsValid :
      (q : Request) (m : Moment) (s : Storage) {r : EnqueueResult} {s' : Storage}
      → enqueue_upload lib q m s ≡ ok (r, s')
      → IsValid s
      → IsValid s'
  unfolding enqueue_upload
  enqueue_upload-IsValid q m s e t =
      let (c, checked, e1) = >>=-eq-ok (check_request lib q m) _ e in
      let (linked, filled, e2) = >>=-eq-ok (backfill_causal_links lib s.uploads) _ e1 in
      let limits = check_request_limits q m checked in
      insert_upload-IsValid q c m (record s { uploads = linked }) limits.0 limits.1 e2
        (backfill-IsTable lib s.next_upload_id s.uploads filled t)
