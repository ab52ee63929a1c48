-- ===== src/Storage/Uploads/Invariant/Settling.antt =====
-- The operations that end a lease, and the well-formedness of the table.
use os_scanner.Prelude.{
  ℕ, String, ◌≡◌, refl, subst, Bool, some, arith, find, find-All, update, ok, storage_error,
  or_raise, or_raise-eq-ok, >>=-eq-ok, if◌then◌else◌,
}
use os_scanner.Storage.Runtime.{Runtime, clean_error}
use os_scanner.Storage.Identifier.{clean_text}
use os_scanner.Storage.Uploads.{
  Upload, Status, pending, dead, Storage, find_upload, has_id, is_leased_by,
}
use os_scanner.Storage.Uploads.Table.{
  find_upload-IsFound, IsTable-Finds, Anything, All-Anything, update-IsTable,
}
use os_scanner.Storage.Uploads.Settle.{
  Failure, mark_upload_succeeded, mark_upload_failed, deliver, fail_row, is_terminal, retry_at,
}
use os_scanner.Storage.Uploads.Invariant.{IsValid, update_rows}

pub mark_upload_succeeded-IsValid :
    (id : ℕ) (token now : String) (s : Storage) {b : Bool} {s' : Storage}
    → mark_upload_succeeded id token now s ≡ ok (b, s')
    → IsValid s
    → IsValid s'
unfolding mark_upload_succeeded
mark_upload_succeeded-IsValid id token now s {b} {s'} e t =
    let (token', _, e1) = >>=-eq-ok (clean_text token 256) _ e in
    subst IsValid
      {x = record s { uploads = update (is_leased_by id token') (deliver now) s.uploads }} {y = s'}
      (ground arith)
      (update_rows (is_leased_by id token') (deliver now) (λ r hit k. ground arith) (λ r. refl) _ _
        t)

module _ (lib : Runtime) (now : ℕ) (text : String) where
  -- A failed upload's row, as the transaction leaves it.
  abbrev pub failed_row : Failure → Upload → ℕ → Upload → Upload
  failed_row f row at =
      fail_row (if is_terminal f row then dead else pending) at (clean_error lib f.error 1024) text

  pub record Failed (id : ℕ) (f : Failure) (s : Storage) (status : Status) (s' : Storage)
      : Type 0 where
    pub token : String
    pub row : Upload
    pub at : ℕ
    pub held : find (is_leased_by id token) s.uploads ≡ some row
    pub timed : (if is_terminal f row then ok now else retry_at f now row) ≡ ok at
    pub outcome : status ≡ (if is_terminal f row then dead else pending)
    pub stored : s' ≡ record s { uploads = update (has_id id) (failed_row f row at) s.uploads }

  pub mark_upload_failed-Failed :
      (id : ℕ) (lease_token : String) (f : Failure) (s : Storage) (status : Status) (s' : Storage)
      → mark_upload_failed lib now text id lease_token f s ≡ ok (status, s')
      → Failed id f s status s'
  unfolding mark_upload_failed
  mark_upload_failed-Failed id lease_token f s status s' e =
      let (token, _, e1) = >>=-eq-ok (clean_text lease_token 256) _ e in
      let (row, held, e2) =
        >>=-eq-ok (or_raise (find (is_leased_by id token) s.uploads) storage_error) _ e1 in
      let (at, timed, e3) =
        >>=-eq-ok (if is_terminal f row then ok now else retry_at f now row) _ e2 in
      record {
        token = token;
        row = row;
        at = at;
        held = or_raise-eq-ok (find (is_leased_by id token) s.uploads) storage_error held;
        timed = timed;
        outcome = ground arith;
        stored = ground arith;
      }

  pub mark_upload_failed-IsValid :
      (id : ℕ) (lease_token : String) (f : Failure) (s : Storage) {status : Status} {s' : Storage}
      → mark_upload_failed lib now text id lease_token f s ≡ ok (status, s')
      → IsValid s
      → IsValid s'
  mark_upload_failed-IsValid id lease_token f s {status} {s'} e t =
      let d = mark_upload_failed-Failed id lease_token f s status s' e in
      let known =
        find_upload-IsFound (is_leased_by id d.token) s.next_upload_id s.uploads d.row t d.held in
      let here =
        (find-All Anything (is_leased_by id d.token) s.uploads d.row (All-Anything s.uploads)
          d.held).1 in
      rw d.stored (
        update-IsTable (λ r. find_upload r.upload_id s.uploads ≡ some r) (has_id id)
          (failed_row f d.row d.at)
          (λ r found hit k.
            let this : r ≡ d.row = ground (arith, known.here) in unfold fail_row in ground (arith))
          (λ r. unfold fail_row in refl) 0 s.next_upload_id s.uploads
          (IsTable-Finds 0 s.next_upload_id s.uploads t) t)
