-- ===== src/Storage/Uploads/Settle.antt =====
-- `mark_upload_succeeded` and `mark_upload_failed`: the end of a lease.
use os_scanner.Prelude.{
  ℕ, ◌+◌, String, Bool, ◌||◌, Option, none, some, leb, if◌then◌else◌, find, any, update, Result, ok,
  err, value_error, storage_error, or_raise, ◌>>=◌,
}
use os_scanner.Storage.Runtime.{Runtime, clean_error}
use os_scanner.Storage.Identifier.{clean_text}
use os_scanner.Storage.Retry.{RetryPolicy, default_policy, is_valid, delay_for_attempt}
use os_scanner.Storage.Uploads.{
  Upload, Storage, Status, pending, succeeded, dead, has_id, is_leased_by,
}

unfoldable pub deliver : String → Upload → Upload
deliver now r = record r {
  status = succeeded;
  lease_token = none;
  leased_until = none;
  last_error = none;
  delivered_at = some now;
  updated_at = now;
}

-- `now` is `delivered_at or utc_now_iso()`.
unfoldable pub mark_upload_succeeded : ℕ → String → String → Storage → Result (Bool × Storage)
unfolding deliver
mark_upload_succeeded id lease_token now s = do
  token ← clean_text lease_token 256
  ok (
    any (is_leased_by id token) s.uploads,
    record s { uploads = update (is_leased_by id token) (deliver now) s.uploads },
  )

-- The arguments of `mark_upload_failed`; `draw` is its random source.
pub record Failure : Type 0 where
  pub error : String
  pub permanent : Bool
  pub retry_after : Option ℕ
  pub retry_policy : Option RetryPolicy
  pub draw : ℕ → ℕ

-- `retry_policy or RetryPolicy(max_attempts=…)`, whose constructor checks its arguments
unfoldable pub policy_for : Option RetryPolicy → ℕ → Result RetryPolicy
policy_for (some policy) max_attempts = ok policy
policy_for none max_attempts =
    let policy = default_policy max_attempts in
    if is_valid policy then ok policy else err value_error

-- The time of the next attempt of a row that is tried again.
unfoldable pub retry_at : Failure → ℕ → Upload → Result ℕ
unfolding policy_for
retry_at f now row = elim f.retry_after [
  | some seconds ↦ ok (now + seconds)
  | none ↦ (do
    policy ← policy_for f.retry_policy row.max_attempts
    delay ← delay_for_attempt policy row.attempt_count f.draw
    ok (now + delay))
]

unfoldable pub fail_row : Status → ℕ → String → String → Upload → Upload
fail_row status next_attempt error text r = record r {
  status = status;
  next_attempt_at = next_attempt;
  lease_token = none;
  leased_until = none;
  last_error = some error;
  updated_at = text;
}

-- permanent or attempt_count >= max_attempts
abbrev pub is_terminal : Failure → Upload → Bool
is_terminal f row = f.permanent || leb row.max_attempts row.attempt_count

module _ (lib : Runtime) (now : ℕ) (text : String) where
  unfoldable pub mark_upload_failed : ℕ → String → Failure → Storage → Result (Status × Storage)
  unfolding retry_at fail_row clean_error
  mark_upload_failed id lease_token f s = do
    token ← clean_text lease_token 256
    row ← or_raise (find (is_leased_by id token) s.uploads) storage_error
    let terminal = is_terminal f row
    let status = if terminal then dead else pending
    next_attempt ← (if terminal then ok now else retry_at f now row)
    ok (
      status,
      record s {
        uploads =
            update (has_id id) (fail_row status next_attempt (clean_error lib f.error 1024) text)
              s.uploads;
      },
    )
