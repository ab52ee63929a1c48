-- ===== src/Transport/Worker.antt =====
-- app/transport/worker.py: UploadWorker. The HTTP client's answer to a request, the clocks and the
-- random draws of one turn of the loop are given; metrics and logs are left out, as their failures
-- are swallowed.
pub mod Runs
pub mod Accounts
pub mod Outcomes
use os_scanner.Prelude.{
  ℕ, zero, suc, ◌+◌, ◌-◌, ◌*◌, max, String, Bool, true, false, not, ◌&&◌, ◌||◌, Option, none, some,
  List, [], ◌∷◌, leb, ◌==◌, if◌then◌else◌, Result, ok, err, Error, attribute_error, value_error,
  storage_error, idempotency_conflict,
}
use os_scanner.Json.{Json, as_object, get, truthy}
use os_scanner.Storage.Runtime.{Runtime}
use os_scanner.Storage.Retry.{RetryPolicy}
use os_scanner.Storage.Uploads.{Storage, Status, EnqueueResult, is_dead}
use os_scanner.Storage.Uploads.Claim.{QueuedUpload, second, claim_uploads}
use os_scanner.Storage.Uploads.Settle.{Failure, mark_upload_succeeded, mark_upload_failed}
use os_scanner.Storage.Uploads.Resync.{schedule_full_resync}

-- UploadRunStats
pub record UploadRunStats : Type 0 where
  pub claimed : ℕ
  pub succeeded : ℕ
  pub retried : ℕ
  pub dead : ℕ

-- The part of the client's configuration that the lease depends on; durations in microseconds.
pub record ClientConfig : Type 0 where
  pub max_attempts : ℕ
  pub connect_timeout : ℕ
  pub read_timeout : ℕ
  pub backoff_max : ℕ

-- How `client.request` ends: it returns, or raises a CloudApiError, another TransportError or any
-- other exception. Each error comes with its text.
pub data Delivery : Type 0 where
  delivered : Delivery
  cloud_error :
      (status_code : ℕ) (retryable : Bool) (retry_after : Option ℕ) (text : String) → Delivery
  transport_error : (retryable : Bool) (text : String) → Delivery
  unexpected : (type_name : String) → Delivery

-- What one turn of the loop reads from its surroundings.
pub record Turn : Type 0 where
  pub claim_at : ℕ
  pub claim_text : String
  pub tokens : ℕ → String
  pub request : QueuedUpload → Delivery
  pub settle_at : ℕ
  pub settle_text : String
  pub resync_at : ℕ
  pub resync_text : String
  pub resync_uuid : String
  pub error_text : Error → String
  pub draw : ℕ → ℕ

-- What a turn adds to the counters.
pub record Tally : Type 0 where
  pub succeeded : ℕ
  pub retried : ℕ
  pub dead : ℕ

-- _effective_lease_seconds
unfoldable pub effective_lease : ClientConfig → ℕ → Result ℕ
effective_lease config lease =
    let attempts = config.max_attempts in
    let request_budget =
      attempts * (config.connect_timeout + config.read_timeout)
      + (attempts - 1) * config.backoff_max
      + 5 * second in
    let longer = max lease request_budget in
    if leb second longer && leb longer (86_400 * second) then ok longer else err value_error

-- StorageError and its subclass IdempotencyConflictError
abbrev pub is_storage_error : Error → Bool
is_storage_error storage_error = true
is_storage_error idempotency_conflict = true
is_storage_error _ = false

abbrev pub by_status : Status → Tally
by_status status =
    if is_dead status
    then record { succeeded = 0; retried = 0; dead = 1 }
    else record { succeeded = 0; retried = 1; dead = 0 }

module _ (lib : Runtime) (policy : RetryPolicy) where
  -- `mark_upload_failed` with the counters that depend on the new status.
  unfoldable pub settle_failure : Turn → QueuedUpload → Failure → Storage → Result Tally × Storage
  settle_failure turn upload failure s =
      elim (mark_upload_failed lib turn.settle_at turn.settle_text upload.upload_id
        upload.lease_token failure s) [
          | ok answer ↦ (ok (by_status answer.0), answer.1)
          | err error ↦ (err error, s)
        ]

  abbrev pub failure_of : Turn → String → Bool → Option ℕ → Failure
  failure_of turn text permanent retry_after = record {
    error = text;
    permanent = permanent;
    retry_after = retry_after;
    retry_policy = some policy;
    draw = turn.draw;
  }

  -- A conflict on a differential upload: the full snapshot replaces it, or it is a dead letter.
  unfoldable pub settle_conflict : Turn → QueuedUpload → String → Storage → Result Tally × Storage
  settle_conflict turn upload text s =
      elim (schedule_full_resync lib turn.resync_at turn.resync_text turn.resync_uuid
        upload.upload_id upload.lease_token text s) [
          | ok answer ↦ (ok (record { succeeded = 0; retried = 1; dead = 0 }), answer.1)
          | err error ↦
              if is_storage_error error
              then elim (mark_upload_failed lib turn.settle_at turn.settle_text upload.upload_id
                  upload.lease_token (failure_of turn (turn.error_text error) true none) s) [
                    | ok answer ↦ (ok (record { succeeded = 0; retried = 0; dead = 1 }), answer.1)
                    | err again ↦ (err again, s)
                  ]
              else (err error, s)
        ]

  -- `is_recovery`, where the metadata has a `get`
  abbrev pub is_recovery : QueuedUpload → Option Bool
  is_recovery upload = elim (as_object upload.metadata) [
    | none ↦ none
    | some fields ↦ some (truthy (get "causal_recovery" fields))
  ]

  unfoldable pub settle_cloud_error :
      Turn → QueuedUpload → ℕ → Bool → Option ℕ → String → Storage → Result Tally × Storage
  settle_cloud_error turn upload status_code retryable retry_after text s =
      elim (is_recovery upload) [
        | none ↦ (err attribute_error, s)
        | some recovery ↦
            if (status_code == 409 || status_code == 412) && not recovery
            then settle_conflict turn upload text s
            else settle_failure turn upload (failure_of turn text (not retryable) retry_after) s
      ]

  -- The body of the loop behind the claim.
  unfoldable pub settle : Turn → QueuedUpload → Delivery → Storage → Result Tally × Storage
  settle turn upload delivered s =
      elim (mark_upload_succeeded upload.upload_id upload.lease_token turn.settle_text s) [
        | ok answer ↦
            (ok (record { succeeded = if answer.0 then 1 else 0; retried = 0; dead = 0 }), answer.1)
        | err error ↦ (err error, s)
      ]
  settle turn upload (cloud_error status_code retryable retry_after text) s =
      settle_cloud_error turn upload status_code retryable retry_after text s
  settle turn upload (transport_error retryable text) s =
      settle_failure turn upload (failure_of turn text (not retryable) none) s
  settle turn upload (unexpected type_name) s =
      settle_failure turn upload (failure_of turn type_name false none) s

  abbrev pub add_tally : UploadRunStats → Tally → UploadRunStats
  add_tally stats t = record {
    claimed = stats.claimed + 1;
    succeeded = stats.succeeded + t.succeeded;
    retried = stats.retried + t.retried;
    dead = stats.dead + t.dead;
  }

  -- The loop, with `remaining` turns up to the limit.
  unfoldable pub run_turns :
      ℕ → (ℕ → Turn) → ℕ → UploadRunStats → Storage → Result UploadRunStats × Storage
  run_turns lease turns zero stats s = (ok stats, s)
  run_turns lease turns (suc remaining) stats s =
      let turn = turns stats.claimed in
      let rest = run_turns lease turns remaining in
      elim (claim_uploads lib turn.tokens turn.claim_at lease turn.claim_text 1 s) [
        | err error ↦ (err error, s)
        | ok answer ↦ elim answer.0 [
          | [] ↦ (ok stats, answer.1)
          | upload ∷ others ↦
              let settled = settle turn upload (turn.request upload) answer.1 in
              elim settled.0 [
                | err error ↦ (err error, settled.1)
                | ok tally ↦ rest (add_tally stats tally) settled.1
              ]
        ]
      ]

  unfoldable pub run_once :
      ClientConfig → ℕ → (ℕ → Turn) → ℕ → Storage → Result UploadRunStats × Storage
  run_once config lease_seconds turns limit s =
      if leb 1 limit && leb limit 1000
      then elim (effective_lease config lease_seconds) [
        | err error ↦ (err error, s)
        | ok lease ↦
            run_turns lease turns limit
              (record { claimed = 0; succeeded = 0; retried = 0; dead = 0 }) s
      ]
      else (err value_error, s)
