-- ===== src/Storage/Uploads/Invariant/Purging.antt =====
-- The deletion of delivered uploads, and the well-formedness of the table.
use os_scanner.Prelude.{
  ℕ, ◌-◌, ◌==◌, ◌&&◌, String, ◌≡◌, refl, subst, Bool, List, arith, leb, inl, inr, Bool-cases, ok,
  guard, value_error, >>=-eq-ok,
}
use os_scanner.Storage.Uploads.{Upload, Storage}
use os_scanner.Storage.Uploads.Table.{IsRow, IsTable, delete-IsTable}
use os_scanner.Storage.Uploads.Purge.{
  forget, is_resolved, is_delivered, delete_where, purge_succeeded_uploads,
}
use os_scanner.Storage.Uploads.Invariant.{IsValid}

-- What is deleted is forgotten in the rows that refer to it, and no row is changed besides.
forget-IsRow : (ids : List ℕ) (r : Upload) → IsRow r → IsRow (forget ids r)
unfolding forget
forget-IsRow ids r k = ground arith

delete_where-IsTable :
    (test : Upload → Bool) (limit hi : ℕ) (rows : List Upload)
    → IsTable 0 hi rows
    → IsTable 0 hi (delete_where test limit rows).1
unfolding delete_where
delete_where-IsTable test limit hi rows t =
    delete-IsTable (forget _) _ (forget-IsRow _) (λ r. unfold forget in refl) 0 hi rows t

pub purge_succeeded_uploads-IsValid :
    (older_than : String) (limit : ℕ) (s : Storage) {n : ℕ} {s' : Storage}
    → purge_succeeded_uploads older_than limit s ≡ ok (n, s')
    → IsValid s
    → IsValid s'
unfolding purge_succeeded_uploads
purge_succeeded_uploads-IsValid older_than limit s {n} {s'} e t =
    let (_, _, e1) = >>=-eq-ok (guard (leb 1 limit && leb limit 100_000) value_error) _ e in
    let first = delete_where (is_resolved s.uploads older_than) limit s.uploads in
    let second = delete_where (is_delivered first.1 older_than) (limit - first.0) first.1 in
    let t1 =
      delete_where-IsTable (is_resolved s.uploads older_than) limit s.next_upload_id s.uploads t in
    elim (Bool-cases (limit - first.0 == 0)) [
      | inl full ↦
          subst IsValid {x = record s { uploads = first.1 }} {y = s'} (ground (arith, full)) t1
      | inr room ↦
          subst IsValid {x = record s { uploads = second.1 }} {y = s'} (ground (arith, room)) (
            delete_where-IsTable (is_delivered first.1 older_than) (limit - first.0)
              s.next_upload_id first.1 t1)
    ]
