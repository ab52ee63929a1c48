-- ===== src/Transport/Worker/Outcomes.antt =====
-- One turn of the worker: what becomes of the claimed upload, by what the service answers.
use os_scanner.Prelude.{
  ℕ, subst, sym, ok-injective, Bool-cases, String, Result, ◌≡◌, ◌≢◌, refl, Bool, true, false, not,
  ◌&&◌, ◌||◌, ◌==◌, Option, none, some, List, [], ◌∷◌, arith, find, find-All, any, update, ok, err,
  overflow_error, ◌⊎◌, inl, inr, ◌≤◌, ◌<◌,
}
use os_scanner.Json.{Fields, as_object, get, truthy}
use os_scanner.Storage.Runtime.{Runtime}
use os_scanner.Storage.Identifier.{clean_text}
use os_scanner.Storage.Retry.{RetryPolicy}
use os_scanner.Storage.Uploads.{
  Upload, Storage, Status, pending, dead, succeeded, find_upload, is_leased_by,
}
use os_scanner.Storage.Uploads.Table.{find_upload-IsFound, Anything, All-Anything, find-update}
use os_scanner.Storage.Uploads.Claim.{QueuedUpload}
use os_scanner.Storage.Uploads.Settle.{policy_for, deliver, mark_upload_succeeded}
use os_scanner.Storage.Uploads.Invariant.{IsValid}
use os_scanner.Storage.Uploads.Failing.{
  IsOverflow, IsDecided, IsFailed, update-others, mark_upload_failed_returns,
}
use os_scanner.Transport.Worker.{
  Delivery, delivered, cloud_error, transport_error, unexpected, Turn, Tally, settle,
  settle_failure, settle_cloud_error, failure_of, by_status,
}

find-any {ℓ} :
    {A : Type ℓ} (p : A → Bool) (xs : List A) (a : A) → find p xs ≡ some a → any p xs ≡ true
unfolding find any
find-any p [] a e = absurd (cc)
find-any p (x ∷ xs) a e = elim (Bool-cases (p x)) [
  | inl hit ↦ rw hit refl
  | inr miss ↦ rw miss (find-any p xs a (ground (arith, miss, e)))
]

-- Whether a failed request may be sent again: as the client says, and after any unexpected error.
abbrev pub may_retry : Delivery → Bool
may_retry delivered = true
may_retry (cloud_error code retryable retry_after text) = retryable
may_retry (transport_error retryable text) = retryable
may_retry (unexpected type_name) = true

-- The wait that the service asks for.
abbrev pub asked : Delivery → Option ℕ
asked (cloud_error code retryable retry_after text) = retry_after
asked _ = none

-- An answer other than a conflict (409 or 412) on an upload that is not itself a recovery. A cloud error
-- comes with metadata that are an object, as the queue stores them.
abbrev pub IsPlain : QueuedUpload → Delivery → Type 0
IsPlain upload (cloud_error code retryable retry_after text) =
    (fields : Fields) × (as_object upload.metadata ≡ some fields)
    × (((code == 409 || code == 412) && not (truthy (get "causal_recovery" fields))) ≡ false)
IsPlain upload _ = Unit {0}

-- The upload is delivered, without a lease; the others are as before.
pub record IsDelivered (id : ℕ) (text : String) (s s' : Storage) : Type 0 where
  pub after : Upload
  pub found : find_upload id s'.uploads ≡ some after
  pub marked : after.status ≡ succeeded
  pub stamped : after.delivered_at ≡ some text
  pub unleased : (after.lease_token ≡ none) × (after.leased_until ≡ none)
  pub others : (other : ℕ) → other ≢ id → find_upload other s'.uploads ≡ find_upload other s.uploads

-- The upload is given up if the request must not be sent again or this was the last attempt, and is
-- queued again otherwise.
abbrev pub IsRetriedOrDead : Bool → Upload → Status → Tally → Type 0
IsRetriedOrDead again row status tally =
    ((status ≡ dead)
      × (tally ≡ record { succeeded = 0; retried = 0; dead = 1 })
      × ((again ≡ false) ⊎ (row.max_attempts ≤ row.attempt_count)))
    ⊎ ((status ≡ pending)
        × (tally ≡ record { succeeded = 0; retried = 1; dead = 0 })
        × (again ≡ true)
        × (row.attempt_count < row.max_attempts))

module _ (lib : Runtime) (policy : RetryPolicy) (turn : Turn) (upload : QueuedUpload) where
  -- How a turn ends, as a result and the tables after it, when the upload has failed.
  abbrev pub FailedTurn : Bool → Option ℕ → Upload → Storage → Result Tally × Storage → Type 0
  FailedTurn again wait row s end_ =
      ((again ≡ true)
        × (wait ≡ none)
        × (row.attempt_count < row.max_attempts)
        × IsOverflow policy row.attempt_count
        × (end_ ≡ (err overflow_error, s)))
      ⊎ ((status : Status) × (tally : Tally) × (s' : Storage) × (end_ ≡ (ok tally, s'))
          × IsRetriedOrDead again row status tally
          × IsFailed upload.upload_id turn.settle_at row status s s')

  abbrev pub TurnOutcome : Upload → Storage → Delivery → Type 0
  TurnOutcome row s delivered =
      (s' : Storage) × (settle lib policy turn upload delivered s
        ≡ (ok (record { succeeded = 1; retried = 0; dead = 0 }), s'))
      × IsDelivered upload.upload_id turn.settle_text s s'
  TurnOutcome row s d = FailedTurn (may_retry d) (asked d) row s (settle lib policy turn upload d s)

  IsRetriedOrDead-by_status :
      (again : Bool) (wait : Option ℕ) (text : String) (row : Upload) (status : Status)
      → IsDecided (failure_of lib policy turn text (not again) wait) row status
      → IsRetriedOrDead again row status (by_status status)
  IsRetriedOrDead-by_status true wait text row status (inl (gone, inl never)) = absurd (cc)
  IsRetriedOrDead-by_status false wait text row status (inl (gone, inl never)) =
      inl (gone, rw gone refl, inl refl)
  IsRetriedOrDead-by_status again wait text row status (inl (gone, inr last)) =
      inl (gone, rw gone refl, inr last)
  IsRetriedOrDead-by_status false wait text row status (inr (waits, never, left)) = absurd (cc)
  IsRetriedOrDead-by_status true wait text row status (inr (waits, never, left)) =
      inr (waits, rw waits refl, refl, left)

  policy_for-given :
      (limit : ℕ) (p : RetryPolicy) → policy_for (some policy) limit ≡ ok p → policy ≡ p
  unfolding policy_for
  policy_for-given limit p e = ok-injective e

  module _ (token : String) (s : Storage) (row : Upload) (valid : IsValid s)
      (clean : clean_text upload.lease_token 256 ≡ ok token)
      (held : find (is_leased_by upload.upload_id token) s.uploads ≡ some row) where
    settle_failure-FailedTurn :
        (again : Bool) (wait : Option ℕ) (text : String)
        → FailedTurn again wait row s (
            settle_failure lib policy turn upload
              (failure_of lib policy turn text (not again) wait)
              s)
    unfolding settle_failure
    settle_failure-FailedTurn again wait text =
        let f = failure_of lib policy turn text (not again) wait in
        elim (mark_upload_failed_returns lib turn.settle_at turn.settle_text upload.upload_id
          upload.lease_token token f s row valid clean held) [
            | inl (refused, raised) ↦ inl (
              ground (arith, refused.retried),
              refused.unasked,
              refused.left,
              subst (λ p. IsOverflow p row.attempt_count)
                  (sym (policy_for-given row.max_attempts refused.policy refused.chosen))
                  refused.big,
              rw (raised, settle_failure) refl,
            )
            | inr (status, s', done, decided, failed) ↦ inr (
              status,
              by_status status,
              s',
              rw (done, settle_failure) refl,
              IsRetriedOrDead-by_status again wait text row status decided,
              failed,
            )
          ]

    settle-IsDelivered : TurnOutcome row s delivered
    unfolding settle mark_upload_succeeded
    settle-IsDelivered =
        let id = upload.upload_id in
        let f = deliver turn.settle_text in
        let known =
          find_upload-IsFound (is_leased_by id token) s.next_upload_id s.uploads row valid held in
        let leased =
          (find-All Anything (is_leased_by id token) s.uploads row (All-Anything s.uploads)
            held).1 in
        let own : row.upload_id ≡ id = ground (arith, leased) in
        let looked =
          find-update (is_leased_by id token) f (λ r. unfold deliver in refl) id s.uploads in
        (
          record s { uploads = update (is_leased_by id token) f s.uploads },
          rw (clean, find-any (is_leased_by id token) s.uploads row held, settle) refl,
          record {
            after = f row;
            found = ground (arith, looked, known.here, own, leased);
            marked = unfold deliver in refl;
            stamped = unfold deliver in refl;
            unleased = unfold deliver in (refl, refl);
            others = λ other differ.
                update-others id (is_leased_by id token) f (λ r. unfold deliver in refl)
                  (λ r hit. ground (arith, hit)) s.uploads other differ;
          },
        )

-- A turn of the worker, whose upload is in flight under its lease in a well-formed table, settles the
-- upload by what the service answers. After a delivery the upload is delivered and counted as succeeded.
-- After another answer, conflicts on differential uploads aside, it is dead and counted so if the request
-- must not be sent again or this was the last attempt allowed, and is pending again and counted as
-- retried otherwise. In each case its lease has ended, and the other uploads are as before. Only where it
-- is to be tried again without a wait asked for, and the policy's backoff raises OverflowError, does the
-- turn raise that and change nothing.
pub settle-TurnOutcome :
    (lib : Runtime) (policy : RetryPolicy) (turn : Turn) (upload : QueuedUpload) (token : String)
    (s : Storage) (row : Upload) (d : Delivery)
    → IsValid s
    → clean_text upload.lease_token 256 ≡ ok token
    → find (is_leased_by upload.upload_id token) s.uploads ≡ some row
    → IsPlain upload d
    → TurnOutcome lib policy turn upload row s d
unfolding settle settle_cloud_error
settle-TurnOutcome lib policy turn upload token s row delivered valid clean held plain =
    settle-IsDelivered lib policy turn upload token s row valid clean held
settle-TurnOutcome lib policy turn upload token s row (transport_error again text) valid clean held
      plain =
    settle_failure-FailedTurn lib policy turn upload token s row valid clean held again none text
settle-TurnOutcome lib policy turn upload token s row (unexpected type_name) valid clean held
      plain =
    settle_failure-FailedTurn lib policy turn upload token s row valid clean held true none
      type_name
settle-TurnOutcome lib policy turn upload token s row (cloud_error code again wait text) valid clean
      held (fields, has, other) =
    rw (has, settle_cloud_error, other)
      (settle_failure-FailedTurn lib policy turn upload token s row valid clean held again wait
        text)
