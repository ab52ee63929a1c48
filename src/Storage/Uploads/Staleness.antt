-- ===== src/Storage/Uploads/Staleness.antt =====
-- Reports on uploads by callers that do not hold the lease.
use os_scanner.Prelude.{
  ℕ, String, ◌≡◌, refl, Bool, false, none, List, [], ◌∷◌, arith, find, any, update, ok, err,
  storage_error, ap,
}
use os_scanner.Storage.Runtime.{Runtime}
use os_scanner.Storage.Identifier.{clean_text}
use os_scanner.Storage.Uploads.{Upload, Storage, is_leased_by}
use os_scanner.Storage.Uploads.Settle.{Failure, deliver, mark_upload_succeeded, mark_upload_failed}
use os_scanner.Storage.Uploads.Resync.{schedule_full_resync}

module _ (p : Upload → Bool) where
  update_none :
      (f : Upload → Upload) (rows : List Upload) → any p rows ≡ false → update p f rows ≡ rows
  unfolding any update
  update_none f [] h = refl
  update_none f (r ∷ rows) h = ground (arith, h, update_none f rows)

  find-none : (rows : List Upload) → any p rows ≡ false → find p rows ≡ none
  unfolding any find
  find-none [] h = refl
  find-none (r ∷ rows) h = ground (arith, h, find-none rows)

-- When no row is in flight under the id and the token, a delivery report changes nothing and answers
-- false, and a failure report and a request for a full resync are refused with a storage error.
pub stale_lease_refused :
    (lib : Runtime) (id : ℕ) (lease_token token : String) (s : Storage) (now : ℕ)
    (text uuid error : String) (f : Failure)
    → clean_text lease_token 256 ≡ ok token
    → any (is_leased_by id token) s.uploads ≡ false
    → (mark_upload_succeeded id lease_token text s ≡ ok (false, s))
      × (mark_upload_failed lib now text id lease_token f s ≡ err storage_error)
      × (schedule_full_resync lib now text uuid id lease_token error s ≡ err storage_error)
unfolding mark_upload_succeeded mark_upload_failed schedule_full_resync
stale_lease_refused lib id lease_token token s now text uuid error f clean stale =
    let unchanged = update_none (is_leased_by id token) (deliver text) s.uploads stale in
    let absent = find-none (is_leased_by id token) s.uploads stale in
    (
      rw (clean, stale) (ap (λ rows. ok (false, record s { uploads = rows })) unchanged),
      rw (clean, absent) refl,
      rw (clean, absent) refl,
    )
