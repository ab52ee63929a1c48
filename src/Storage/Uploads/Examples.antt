-- ===== src/Storage/Uploads/Examples.antt =====
-- Runs of the upload queue on small tables: two results of one endpoint are queued, and claimed.
use os_scanner.Prelude.{
  false, ◌⊎◌, overflow_error, err, storage_error, String, ◌≡◌, ◌≢◌, refl, true, none, some, [], ◌∷◌,
  arith, ok, All, select, find, sort_by, update, any,
}
use os_scanner.Prelude.Text.{show, dashed}
use os_scanner.Json.{object, end, get}
use os_scanner.Storage.Runtime.{Runtime}
use os_scanner.Storage.Identifier.{clean_text}
use os_scanner.Storage.Uploads.{
  is_leased_by, find_upload, Upload, Storage, Status, pending, in_flight,
}
use os_scanner.Storage.Uploads.Enqueue.{Request, Moment, bytes, enqueue_upload}
use os_scanner.Storage.Uploads.Claim.{is_unblocked, QueuedUpload, claim_uploads, lease_row, queued}
use os_scanner.Storage.Uploads.Invariant.{IsValid}
use os_scanner.Storage.Uploads.Invariant.Steps.{start_only, commit, enqueue, claim, Reach-IsValid}
use os_scanner.Storage.Uploads.Invariant.Claiming.{claim_uploads-IsValid}
use os_scanner.Storage.Uploads.Settle.{Failure, mark_upload_succeeded, mark_upload_failed}
use os_scanner.Storage.Uploads.Resync.{schedule_full_resync}
use os_scanner.Storage.Uploads.Staleness.{stale_lease_refused}
use os_scanner.Storage.Uploads.Failing.{IsRefused, IsDecided, IsFailed, mark_upload_failed_returns}
use os_scanner.Storage.Uploads.Exclusion.{IsHeld, claim_uploads-IsHeld, claims_disjoint}

-- A runtime whose documents are all empty objects.
abbrev pub small_runtime : Runtime
small_runtime = record {
  canonical_json = λ d. "{}";
  loads = λ s. some (object end);
  loads_bytes = λ b. none;
  encode = λ s. [];
  sha256 = λ b. "hash";
  casefold = λ s. s;
  upper = λ s. s;
  redact = λ s. s;
}

abbrev empty_storage : Storage
empty_storage = record { uploads = []; next_upload_id = 1; audit = []; snapshots = [] }

abbrev moment : Moment
moment = record { uuid = "request"; epoch = 5; text = "t0" }

abbrev result_request : String → Request
result_request key = record {
  kind = "scan-result";
  payload = bytes (7 ∷ []);
  idempotency_key = key;
  endpoint = "/results";
  method = "POST";
  content_type = "application/json";
  request_id = none;
  metadata = end;
  max_attempts = 3;
  not_before = none;
}

abbrev first_row : Upload
first_row = record {
  upload_id = 1;
  kind = "scan-result";
  method = "POST";
  endpoint = "/results";
  payload = 7 ∷ [];
  payload_hash = "hash";
  content_type = "application/json";
  idempotency_key = "a";
  request_id = "request";
  status = pending;
  attempt_count = 0;
  max_attempts = 3;
  next_attempt_at = 5;
  leased_until = none;
  lease_token = none;
  last_error = none;
  metadata_json = "{}";
  created_at = "t0";
  updated_at = "t0";
  delivered_at = none;
  causal_group = some "endpoint:unscoped";
  predecessor = none;
  superseded_by = none;
  resync_for = none;
}

abbrev second_row : Upload
second_row = record first_row { upload_id = 2; idempotency_key = "b"; predecessor = some 1 }

abbrev one_queued : Storage
one_queued = record empty_storage { uploads = first_row ∷ []; next_upload_id = 2 }

abbrev pub two_queued : Storage
two_queued = record empty_storage { uploads = first_row ∷ second_row ∷ []; next_upload_id = 3 }

abbrev pub leased_row : Upload
leased_row = record first_row {
  status = in_flight;
  attempt_count = 1;
  leased_until = some 2_000_005;
  lease_token = some "1";
  updated_at = "t1";
}

abbrev pub one_leased : Storage
one_leased = record two_queued { uploads = leased_row ∷ second_row ∷ [] }

abbrev pub first_upload : QueuedUpload
first_upload = queued first_row 1 "1" (object end)

one_enqueued :
    enqueue_upload small_runtime (result_request "a") moment empty_storage
    ≡ ok (record { upload_id = 1; created = true }, one_queued)
unfolding enqueue_upload clean_text select find dashed get
one_enqueued = refl

two_enqueued :
    enqueue_upload small_runtime (result_request "b") moment one_queued
    ≡ ok (record { upload_id = 2; created = true }, two_queued)
unfolding enqueue_upload clean_text select find dashed get
two_enqueued = refl

-- The second result waits for the first.
one_claimed :
    claim_uploads small_runtime show 5 2_000_000 "t1" 10 two_queued
    ≡ ok (first_upload ∷ [], one_leased)
unfolding claim_uploads show queued lease_row select sort_by update is_unblocked any
one_claimed = refl

none_claimed : claim_uploads small_runtime show 6 2_000_000 "t2" 10 one_leased ≡ ok ([], one_leased)
unfolding claim_uploads show queued select sort_by update is_unblocked
none_claimed = refl

pub two_queued-IsValid : IsValid two_queued
two_queued-IsValid =
    Reach-IsValid small_runtime
      (commit (commit start_only (enqueue (result_request "a") moment one_enqueued))
        (enqueue (result_request "b") moment two_enqueued))
      tt

pub one_leased-IsValid : IsValid one_leased
one_leased-IsValid =
    claim_uploads-IsValid small_runtime show 5 2_000_000 "t1" 10 two_queued one_claimed
      two_queued-IsValid

Reach-IsValid_example : IsValid one_leased
Reach-IsValid_example =
    Reach-IsValid small_runtime
      (commit
        (commit (commit start_only (enqueue (result_request "a") moment one_enqueued))
          (enqueue (result_request "b") moment two_enqueued))
        (claim show 5 2_000_000 "t1" 10 one_claimed))
      tt

first_upload-IsHeld : IsHeld 1 2_000_005 "1" one_leased.uploads
unfolding find_upload
first_upload-IsHeld = record {
  row = leased_row;
  found = refl;
  flying = refl;
  until_ = refl;
  token_ = refl;
}

claim_uploads-IsHeld_example :
    IsHeld 1 2_000_005 "1" one_leased.uploads × All (λ (q : QueuedUpload). q.upload_id ≢ 1) []
claim_uploads-IsHeld_example =
    claim_uploads-IsHeld small_runtime show 6 2_000_000 "t2" 10 1 2_000_005 "1" one_leased []
      one_leased one_leased-IsValid first_upload-IsHeld (omega arith) none_claimed

claims_disjoint_example :
    All
      (λ (q : QueuedUpload). All (λ (q' : QueuedUpload). q'.upload_id ≢ q.upload_id) [])
      (first_upload ∷ [])
claims_disjoint_example =
    claims_disjoint small_runtime show show 5 2_000_000 6 2_000_000 10 10 "t1" "t2" two_queued
      (first_upload ∷ []) one_leased [] one_leased two_queued-IsValid one_claimed none_claimed
      (omega arith)

pub token_clean : clean_text "1" 256 ≡ ok "1"
unfolding clean_text
token_clean = refl

second_not_leased : any (is_leased_by 2 "1") one_leased.uploads ≡ false
unfolding any
second_not_leased = refl

abbrev refusal : Failure
refusal = record {
  error = "refused";
  permanent = false;
  retry_after = some 30;
  retry_policy = none;
  draw = λ j. j;
}

stale_lease_refused_example :
    (mark_upload_succeeded 2 "1" "t2" one_leased ≡ ok (false, one_leased))
    × (mark_upload_failed small_runtime 6 "t2" 2 "1" refusal one_leased ≡ err storage_error)
    × (schedule_full_resync small_runtime 6 "t2" "u" 2 "1" "conflict" one_leased
        ≡ err storage_error)
stale_lease_refused_example =
    stale_lease_refused small_runtime 2 "1" "1" one_leased 6 "t2" "u" "conflict" refusal token_clean
      second_not_leased

pub first_leased : find (is_leased_by 1 "1") one_leased.uploads ≡ some leased_row
unfolding find
first_leased = refl

mark_upload_failed_returns_example :
    (IsRefused refusal leased_row
      × (mark_upload_failed small_runtime 6 "t2" 1 "1" refusal one_leased ≡ err overflow_error))
    ⊎ ((status : Status) × (s' : Storage) × (mark_upload_failed small_runtime 6 "t2" 1 "1" refusal
            one_leased
          ≡ ok (status, s'))
        × IsDecided refusal leased_row status
        × IsFailed 1 6 leased_row status one_leased s')
mark_upload_failed_returns_example =
    mark_upload_failed_returns small_runtime 6 "t2" 1 "1" "1" refusal one_leased leased_row
      one_leased-IsValid token_clean first_leased
