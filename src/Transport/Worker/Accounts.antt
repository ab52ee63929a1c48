-- ===== src/Transport/Worker/Accounts.antt =====
-- The counters of a run.
use os_scanner.Prelude.{
  ℕ, zero, suc, ◌+◌, ◌≤◌, ◌≡◌, arith, Result-cases, ok, inl, inr, [], ◌∷◌, String, Bool, Option,
}
use os_scanner.Storage.Runtime.{Runtime}
use os_scanner.Storage.Retry.{RetryPolicy}
use os_scanner.Storage.Uploads.{Storage}
use os_scanner.Storage.Uploads.Claim.{QueuedUpload, claim_uploads}
use os_scanner.Storage.Uploads.Settle.{Failure}
use os_scanner.Transport.Worker.{
  UploadRunStats, ClientConfig, Delivery, delivered, cloud_error, transport_error, unexpected, Turn,
  Tally, settle, settle_failure, settle_conflict, settle_cloud_error, add_tally, run_turns,
  run_once, effective_lease,
}

-- What a turn adds for the one upload that it claimed.
abbrev outcomes : Tally → ℕ
outcomes t = t.succeeded + t.retried + t.dead

abbrev settled : UploadRunStats → ℕ
settled stats = stats.succeeded + stats.retried + stats.dead

module _ (lib : Runtime) (policy : RetryPolicy) where
  settle_failure-outcomes :
      (turn : Turn) (upload : QueuedUpload) (f : Failure) (s : Storage) {t : Tally}
      → (settle_failure lib policy turn upload f s).0 ≡ ok t
      → outcomes t ≤ 1
  unfolding settle_failure
  settle_failure-outcomes turn upload f s e = ground (arith, e)

  settle_conflict-outcomes :
      (turn : Turn) (upload : QueuedUpload) (text : String) (s : Storage) {t : Tally}
      → (settle_conflict lib policy turn upload text s).0 ≡ ok t
      → outcomes t ≤ 1
  unfolding settle_conflict
  settle_conflict-outcomes turn upload text s e = ground (arith, e)

  settle_cloud_error-outcomes :
      (turn : Turn) (upload : QueuedUpload) (code : ℕ) (retryable : Bool) (retry_after : Option ℕ)
      (text : String) (s : Storage) {t : Tally}
      → (settle_cloud_error lib policy turn upload code retryable retry_after text s).0 ≡ ok t
      → outcomes t ≤ 1
  unfolding settle_cloud_error
  settle_cloud_error-outcomes turn upload code retryable retry_after text s e =
      grind (arith, e, settle_conflict-outcomes, settle_failure-outcomes)

  settle-outcomes :
      (turn : Turn) (upload : QueuedUpload) (d : Delivery) (s : Storage) {t : Tally}
      → (settle lib policy turn upload d s).0 ≡ ok t
      → outcomes t ≤ 1
  unfolding settle
  settle-outcomes turn upload delivered s e = ground (arith, e)
  settle-outcomes turn upload (cloud_error code retryable retry_after text) s e =
      settle_cloud_error-outcomes turn upload code retryable retry_after text s e
  settle-outcomes turn upload (transport_error retryable text) s e =
      settle_failure-outcomes turn upload _ s e
  settle-outcomes turn upload (unexpected type_name) s e = settle_failure-outcomes turn upload _ s e

  run_turns-accounts :
      (lease : ℕ) (turns : ℕ → Turn) (remaining : ℕ) (stats : UploadRunStats) (s : Storage)
      {result : UploadRunStats}
      → settled stats ≤ stats.claimed
      → (run_turns lib policy lease turns remaining stats s).0 ≡ ok result
      → (settled result ≤ result.claimed) × (result.claimed ≤ stats.claimed + remaining)
  unfolding run_turns
  run_turns-accounts lease turns zero stats s h e = ground (arith, e)
  run_turns-accounts lease turns (suc remaining) stats s h e =
      let turn = turns stats.claimed in
      elim (Result-cases (claim_uploads lib turn.tokens turn.claim_at lease turn.claim_text 1 s)) [
        | inr (error, e1) ↦ absurd (ground (arith, e, e1))
        | inl (([], s1), e1) ↦ ground (arith, e, e1)
        | inl ((upload ∷ others, s1), e1) ↦
            elim (Result-cases (settle lib policy turn upload (turn.request upload) s1).0) [
              | inr (error, e2) ↦ absurd (ground (arith, e, e1, e2))
              | inl (tally, e2) ↦
                  let one = settle-outcomes turn upload (turn.request upload) s1 e2 in
                  let both =
                    run_turns-accounts lease turns remaining (add_tally lib policy stats tally)
                      (settle lib policy turn upload (turn.request upload) s1).1
                      (omega (arith, h, one)) (ground (arith, e, e1, e2)) in
                  (both.0, omega (arith, both.1))
            ]
      ]

  -- A run that returns has claimed at most `limit` uploads, and counts each of them at most once as
  -- succeeded, retried or dead.
  pub run_once_accounts :
      (config : ClientConfig) (lease_seconds : ℕ) (turns : ℕ → Turn) (limit : ℕ) (s : Storage)
      {stats : UploadRunStats}
      → (run_once lib policy config lease_seconds turns limit s).0 ≡ ok stats
      → (stats.succeeded + stats.retried + stats.dead ≤ stats.claimed) × (stats.claimed ≤ limit)
  unfolding run_once
  run_once_accounts config lease_seconds turns limit s e =
      elim (Result-cases (effective_lease config lease_seconds)) [
        | inr (error, e1) ↦ absurd (ground (arith, e, e1))
        | inl (lease, e1) ↦
            let both =
              run_turns-accounts lease turns limit
                (record { claimed = 0; succeeded = 0; retried = 0; dead = 0 }) s (omega arith)
                (ground (arith, e, e1)) in
            (both.0, omega (arith, both.1))
      ]
