-- ===== src/Transport/Examples.antt =====
-- A run of the worker on a queue of two results of one endpoint.
use os_scanner.Prelude.{false, none, ℕ, ◌+◌, ◌≤◌, ◌≡◌, refl, ok, select, sort_by, update, any, find}
use os_scanner.Prelude.Text.{show}
use os_scanner.Storage.Retry.{default_policy}
use os_scanner.Storage.Identifier.{clean_text}
use os_scanner.Storage.Uploads.Claim.{claim_uploads, is_unblocked, lease_row, queued}
use os_scanner.Storage.Uploads.Settle.{mark_upload_succeeded, deliver}
use os_scanner.Json.{end}
use os_scanner.Storage.Uploads.Examples.{
  small_runtime, two_queued, first_upload, leased_row, one_leased, one_leased-IsValid, token_clean,
  first_leased,
}
use os_scanner.Transport.Worker.{
  UploadRunStats, ClientConfig, Turn, delivered, cloud_error, run_once, run_turns, settle,
  effective_lease,
}
use os_scanner.Transport.Worker.Outcomes.{TurnOutcome, settle-TurnOutcome}
use os_scanner.Transport.Worker.Accounts.{run_once_accounts}

abbrev turn : ℕ → Turn
turn n = record {
  claim_at = 100 + n;
  claim_text = "t1";
  tokens = show;
  request = λ upload. delivered;
  settle_at = 100 + n;
  settle_text = "t2";
  resync_at = 100 + n;
  resync_text = "t2";
  resync_uuid = "r";
  error_text = λ e. "error";
  draw = λ j. j;
}

abbrev config : ClientConfig
config = record { max_attempts = 3; connect_timeout = 1; read_timeout = 2; backoff_max = 4 }

abbrev both_sent : UploadRunStats
both_sent = record { claimed = 2; succeeded = 2; retried = 0; dead = 0 }

-- The second result follows once the first was accepted.
two_delivered :
    (run_once small_runtime (default_policy 8) config 60_000_000 turn 5 two_queued).0 ≡ ok both_sent
unfolding run_once run_turns settle effective_lease claim_uploads show queued lease_row select
    sort_by update is_unblocked any find mark_upload_succeeded deliver clean_text
two_delivered = refl

run_once_accounts_example :
    (both_sent.succeeded + both_sent.retried + both_sent.dead ≤ both_sent.claimed)
    × (both_sent.claimed ≤ 5)
run_once_accounts_example =
    run_once_accounts small_runtime (default_policy 8) config 60_000_000 turn 5 two_queued
      two_delivered

-- A request that the service refuses for good.
settle-TurnOutcome_example :
    TurnOutcome small_runtime
      (default_policy 8)
      (turn 0)
      first_upload
      leased_row
      one_leased
      (cloud_error 422 false none "refused")
unfolding queued
settle-TurnOutcome_example =
    settle-TurnOutcome small_runtime (default_policy 8) (turn 0) first_upload "1" one_leased
      leased_row (cloud_error 422 false none "refused") one_leased-IsValid token_clean first_leased
      (end, refl, refl)
