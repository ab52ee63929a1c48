-- ===== src/Storage/Uploads/Invariant/Steps.antt =====
-- The queue as a transition system, in which every operation, whoever calls it, is a step.
use os_scanner.Prelude.{ℕ, String, ◌≡◌, Bool, Option, List, ok}
use os_scanner.Storage.Runtime.{Runtime}
use os_scanner.Storage.Uploads.{Storage, Status, EnqueueResult}
use os_scanner.Storage.Uploads.Enqueue.{Request, Moment, enqueue_upload}
use os_scanner.Storage.Uploads.Claim.{QueuedUpload, claim_uploads}
use os_scanner.Storage.Uploads.Settle.{Failure, mark_upload_succeeded, mark_upload_failed}
use os_scanner.Storage.Uploads.Resync.{schedule_full_resync}
use os_scanner.Storage.Uploads.Requeue.{RequeueResult, requeue_dead_upload}
use os_scanner.Storage.Uploads.Purge.{purge_succeeded_uploads}
use os_scanner.Storage.Uploads.Invariant.{IsValid, enqueue_upload-IsValid}
use os_scanner.Storage.Uploads.Invariant.Claiming.{claim_uploads-IsValid}
use os_scanner.Storage.Uploads.Invariant.Settling.{
  mark_upload_succeeded-IsValid, mark_upload_failed-IsValid,
}
use os_scanner.Storage.Uploads.Invariant.Recovering.{
  schedule_full_resync-IsValid, requeue_dead_upload-IsValid,
}
use os_scanner.Storage.Uploads.Invariant.Purging.{purge_succeeded_uploads-IsValid}

module _ (lib : Runtime) where
  -- One committed transaction. A call that raises is rolled back, so it is no step.
  pub data Step (s s' : Storage) : Type 0 where
    enqueue :
        (q : Request) (m : Moment) {r : EnqueueResult}
        → enqueue_upload lib q m s ≡ ok (r, s')
        → Step s s'
    claim :
        (uuid : ℕ → String) (now lease : ℕ) (text : String) (limit : ℕ) {qs : List QueuedUpload}
        → claim_uploads lib uuid now lease text limit s ≡ ok (qs, s')
        → Step s s'
    succeed :
        (id : ℕ) (token now : String) {b : Bool}
        → mark_upload_succeeded id token now s ≡ ok (b, s')
        → Step s s'
    fail :
        (now : ℕ) (text : String) (id : ℕ) (token : String) (f : Failure) {status : Status}
        → mark_upload_failed lib now text id token f s ≡ ok (status, s')
        → Step s s'
    rebase :
        (now : ℕ) (at uuid : String) (id : ℕ) (token error : String) {r : EnqueueResult}
        → schedule_full_resync lib now at uuid id token error s ≡ ok (r, s')
        → Step s s'
    requeue :
        (now : ℕ) (at event : String) (id : ℕ) (actor reason : String) (limit : Option ℕ)
        {r : RequeueResult}
        → requeue_dead_upload lib now at event id actor reason limit s ≡ ok (r, s')
        → Step s s'
    purge :
        (older_than : String) (limit : ℕ) {n : ℕ}
        → purge_succeeded_uploads older_than limit s ≡ ok (n, s')
        → Step s s'

  pub data Reach (start : Storage) : Storage → Type 0 where
    start_only : Reach start start
    commit : {before after : Storage} → Reach start before → Step before after → Reach start after

  Step-IsValid : {s s' : Storage} → Step s s' → IsValid s → IsValid s'
  Step-IsValid {s} (enqueue q m e) t = enqueue_upload-IsValid lib q m s e t
  Step-IsValid {s} (claim uuid now lease text limit e) t =
      claim_uploads-IsValid lib uuid now lease text limit s e t
  Step-IsValid {s} (succeed id token now e) t = mark_upload_succeeded-IsValid id token now s e t
  Step-IsValid {s} (fail now text id token f e) t =
      mark_upload_failed-IsValid lib now text id token f s e t
  Step-IsValid {s} (rebase now at uuid id token error e) t =
      schedule_full_resync-IsValid lib now at uuid id token error s e t
  Step-IsValid {s} (requeue now at event id actor reason limit e) t =
      requeue_dead_upload-IsValid lib now at event id actor reason limit s e t
  Step-IsValid {s} (purge older_than limit e) t =
      purge_succeeded_uploads-IsValid older_than limit s e t

  -- A well-formed table stays well formed over any history of committed calls: ids rise and stay below
  -- the next one, no upload is tried more often than its limit, a lease is recorded exactly while an
  -- upload is in flight, predecessors come earlier, and only dead uploads have a replacement.
  pub Reach-IsValid : {s s' : Storage} → Reach s s' → IsValid s → IsValid s'
  Reach-IsValid start_only t = t
  Reach-IsValid (commit r st) t = Step-IsValid st (Reach-IsValid r t)
