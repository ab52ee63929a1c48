-- ===== src/Transport/Worker/Runs.antt =====
-- A run of the worker as a history of queue transactions.
use os_scanner.Prelude.{
  ℕ, zero, suc, String, Bool, true, not, ◌&&◌, ◌||◌, none, [], ◌∷◌, leb, ◌==◌, Result-cases, inl,
  inr, Bool-cases, Option-cases, Option,
}
use os_scanner.Storage.Runtime.{Runtime}
use os_scanner.Storage.Retry.{RetryPolicy}
use os_scanner.Storage.Uploads.{Storage}
use os_scanner.Storage.Uploads.Claim.{QueuedUpload, claim_uploads}
use os_scanner.Storage.Uploads.Settle.{Failure, mark_upload_succeeded, mark_upload_failed}
use os_scanner.Storage.Uploads.Resync.{schedule_full_resync}
use os_scanner.Storage.Uploads.Invariant.{IsValid}
use os_scanner.Storage.Uploads.Invariant.Steps.{
  Reach, start_only, commit, claim, succeed, fail, rebase, Reach-IsValid,
}
use os_scanner.Transport.Worker.{
  UploadRunStats, ClientConfig, Delivery, delivered, cloud_error, transport_error, unexpected, Turn,
  settle, settle_failure, settle_conflict, is_storage_error, settle_cloud_error, failure_of,
  is_recovery, add_tally, run_turns, run_once, effective_lease,
}

module _ (lib : Runtime) (policy : RetryPolicy) where
  settle_failure-Reach :
      (first s : Storage) (turn : Turn) (upload : QueuedUpload) (f : Failure)
      → Reach lib first s
      → Reach lib first (settle_failure lib policy turn upload f s).1
  unfolding settle_failure
  settle_failure-Reach first s turn upload f r =
      elim (Result-cases (
        mark_upload_failed lib turn.settle_at turn.settle_text upload.upload_id upload.lease_token f
          s)) [
            | inr (error, e) ↦ rw (e, settle_failure) r
            | inl (answer, e) ↦
                rw (e, settle_failure)
                  (commit r
                    (fail turn.settle_at turn.settle_text upload.upload_id upload.lease_token f e))
          ]

  settle_conflict-Reach :
      (first s : Storage) (turn : Turn) (upload : QueuedUpload) (text : String)
      → Reach lib first s
      → Reach lib first (settle_conflict lib policy turn upload text s).1
  unfolding settle_conflict
  settle_conflict-Reach first s turn upload text r =
      elim (Result-cases (
        schedule_full_resync lib turn.resync_at turn.resync_text turn.resync_uuid upload.upload_id
          upload.lease_token text s)) [
            | inl (answer, e) ↦
                rw (e, settle_conflict)
                  (commit r (
                    rebase turn.resync_at turn.resync_text turn.resync_uuid upload.upload_id
                      upload.lease_token text e))
            | inr (error, e) ↦
                let f = failure_of lib policy turn (turn.error_text error) true none in
                elim (Bool-cases (is_storage_error error)) [
                  | inr other ↦ rw (e, settle_conflict, other) r
                  | inl known ↦
                      elim (Result-cases (
                        mark_upload_failed lib turn.settle_at turn.settle_text upload.upload_id
                          upload.lease_token f s)) [
                            | inr (again, e1) ↦ rw (e, settle_conflict, known, e1) r
                            | inl (answer, e1) ↦
                                rw (e, settle_conflict, known, e1)
                                  (commit r (
                                    fail turn.settle_at turn.settle_text upload.upload_id
                                      upload.lease_token f e1))
                          ]
                ]
          ]

  settle_cloud_error-Reach :
      (first s : Storage) (turn : Turn) (upload : QueuedUpload) (code : ℕ) (retryable : Bool)
      (retry_after : Option ℕ) (text : String)
      → Reach lib first s
      → Reach lib first
          (settle_cloud_error lib policy turn upload code retryable retry_after text s).1
  unfolding settle_cloud_error
  settle_cloud_error-Reach first s turn upload code retryable retry_after text r =
      elim (Option-cases (is_recovery lib policy upload)) [
        | inl none_ ↦ rw (none_, settle_cloud_error) r
        | inr (recovery, e) ↦ elim (Bool-cases ((code == 409 || code == 412) && not recovery)) [
          | inl conflict ↦
              rw (e, settle_cloud_error, conflict)
                (settle_conflict-Reach first s turn upload text r)
          | inr other ↦
              rw (e, settle_cloud_error, other) (settle_failure-Reach first s turn upload _ r)
        ]
      ]

  settle-Reach :
      (first s : Storage) (turn : Turn) (upload : QueuedUpload) (d : Delivery)
      → Reach lib first s
      → Reach lib first (settle lib policy turn upload d s).1
  unfolding settle
  settle-Reach first s turn upload delivered r =
      elim (Result-cases
        (mark_upload_succeeded upload.upload_id upload.lease_token turn.settle_text s)) [
          | inr (error, e) ↦ rw (e, settle) r
          | inl (answer, e) ↦
              rw (e, settle)
                (commit r (succeed upload.upload_id upload.lease_token turn.settle_text e))
        ]
  settle-Reach first s turn upload (cloud_error code retryable retry_after text) r =
      settle_cloud_error-Reach first s turn upload code retryable retry_after text r
  settle-Reach first s turn upload (transport_error retryable text) r =
      settle_failure-Reach first s turn upload _ r
  settle-Reach first s turn upload (unexpected type_name) r =
      settle_failure-Reach first s turn upload _ r

  run_turns-Reach :
      (first : Storage) (lease : ℕ) (turns : ℕ → Turn) (remaining : ℕ) (stats : UploadRunStats)
      (s : Storage)
      → Reach lib first s
      → Reach lib first (run_turns lib policy lease turns remaining stats s).1
  unfolding run_turns
  run_turns-Reach first lease turns zero stats s r = r
  run_turns-Reach first lease turns (suc remaining) stats s r =
      let turn = turns stats.claimed in
      elim (Result-cases (claim_uploads lib turn.tokens turn.claim_at lease turn.claim_text 1 s)) [
        | inr (error, e) ↦ rw (e, run_turns) r
        | inl (([], s1), e) ↦
            rw (e, run_turns) (commit r (claim turn.tokens turn.claim_at lease turn.claim_text 1 e))
        | inl ((upload ∷ others, s1), e) ↦
            let r1 = commit r (claim turn.tokens turn.claim_at lease turn.claim_text 1 e) in
            let r2 = settle-Reach first s1 turn upload (turn.request upload) r1 in
            elim (Result-cases (settle lib policy turn upload (turn.request upload) s1).0) [
              | inr (error, e1) ↦ rw (e, run_turns, e1) r2
              | inl (tally, e1) ↦
                  rw (e, run_turns, e1)
                    (run_turns-Reach first lease turns remaining (add_tally lib policy stats tally)
                      _ r2)
            ]
      ]

  -- Whatever the cloud service answers, and whether the run returns or raises, the worker has changed
  -- the queue by committed queue transactions only, so the table is well formed if it was before.
  pub run_once-Reach :
      (config : ClientConfig) (lease_seconds : ℕ) (turns : ℕ → Turn) (limit : ℕ) (s : Storage)
      → IsValid s
      → Reach lib s (run_once lib policy config lease_seconds turns limit s).1
        × IsValid (run_once lib policy config lease_seconds turns limit s).1
  unfolding run_once
  run_once-Reach config lease_seconds turns limit s valid =
      let reached : Reach lib s (run_once lib policy config lease_seconds turns limit s).1 =
        elim (Bool-cases (leb 1 limit && leb limit 1000)) [
          | inr out ↦ rw (out, run_once) start_only
          | inl within ↦ elim (Result-cases (effective_lease config lease_seconds)) [
            | inr (error, e) ↦ rw (within, e, run_once) start_only
            | inl (lease, e) ↦
                rw (within, e, run_once) (run_turns-Reach s lease turns limit _ s start_only)
          ]
        ] in
      (reached, Reach-IsValid lib reached valid)
