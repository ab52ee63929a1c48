-- ===== src/Storage/Uploads/Claim.antt =====
-- `claim_uploads`.
use os_scanner.Prelude.{
  ℕ, ◌+◌, ◌*◌, String, Bool, true, false, ◌&&◌, ◌||◌, Option, none, some, List, [], ◌∷◌, take, leb,
  ltb, if◌then◌else◌, any, select, sort_by, update, Result, ok, guard, value_error, ◌>>=◌, ◌>>◌,
}
use os_scanner.Json.{Json}
use os_scanner.Storage.Runtime.{Runtime, parse_json}
use os_scanner.Storage.Uploads.{
  Upload, Storage, pending, in_flight, dead, is_pending, is_in_flight, is_succeeded, has_id,
  find_upload,
}
use os_scanner.Storage.Uploads.Causal.{coalesce, backfill_causal_links}

-- QueuedUpload
pub record QueuedUpload : Type 0 where
  pub upload_id : ℕ
  pub kind : String
  pub method : String
  pub endpoint : String
  pub payload : List ℕ
  pub content_type : String
  pub idempotency_key : String
  pub request_id : String
  pub attempt_count : ℕ
  pub max_attempts : ℕ
  pub lease_token : String
  pub metadata : Json

-- Microseconds in a second.
abbrev pub second : ℕ
second = 1_000_000

-- leased_until <= ?, false on a null
abbrev pub is_expired : ℕ → Option ℕ → Bool
is_expired now none = false
is_expired now (some t) = leb t now

-- The first UPDATE: a lease that ran out at the retry limit.
abbrev pub is_exhausted : ℕ → Upload → Bool
is_exhausted now r =
    is_in_flight r.status && is_expired now r.leased_until && leb r.max_attempts r.attempt_count

unfoldable pub bury : String → Upload → Upload
bury text r = record r {
  status = dead;
  lease_token = none;
  leased_until = none;
  last_error = coalesce r.last_error (some "upload lease expired at retry limit");
  updated_at = text;
}

-- The second UPDATE: a lease that ran out with attempts left.
abbrev pub is_abandoned : ℕ → Upload → Bool
is_abandoned now r =
    is_in_flight r.status && is_expired now r.leased_until && ltb r.attempt_count r.max_attempts

unfoldable pub revive : ℕ → String → Upload → Upload
revive now text r = record r {
  status = pending;
  lease_token = none;
  leased_until = none;
  next_attempt_at = now;
  updated_at = text;
}

unfoldable pub expire_leases : ℕ → String → List Upload → List Upload
unfolding bury revive
expire_leases now text rows =
    update (is_abandoned now) (revive now text) (update (is_exhausted now) (bury text) rows)

-- status = 'SUCCEEDED' in a row that a LEFT JOIN may have missed
unfoldable pub has_succeeded : List Upload → Option ℕ → Bool
unfolding find_upload
has_succeeded rows none = false
has_succeeded rows (some id) = elim (find_upload id rows) [
  | none ↦ false
  | some r ↦ is_succeeded r.status
]

-- The predecessor of an upload no longer holds it back.
unfoldable pub is_unblocked : List Upload → Upload → Bool
unfolding has_succeeded
is_unblocked rows r = elim r.predecessor [
  | none ↦ true
  | some p ↦ elim (find_upload p rows) [
    | none ↦ false
    | some before ↦ is_succeeded before.status || has_succeeded rows before.superseded_by
  ]
]

-- The WHERE clause of the SELECT.
abbrev pub is_ready : List Upload → ℕ → Upload → Bool
is_ready rows now r =
    is_pending r.status
    && leb r.next_attempt_at now
    && ltb r.attempt_count r.max_attempts
    && is_unblocked rows r

unfoldable pub select_ready : ℕ → ℕ → List Upload → List Upload
select_ready now limit rows =
    take limit (sort_by (λ r. r.next_attempt_at) (select (is_ready rows now) rows))

unfoldable pub lease_row : ℕ → ℕ → String → String → Upload → Upload
lease_row attempt until token text r = record r {
  status = in_flight;
  attempt_count = attempt;
  lease_token = some token;
  leased_until = some until;
  updated_at = text;
}

-- What the caller is handed for a leased row.
unfoldable pub queued : Upload → ℕ → String → Json → QueuedUpload
queued row attempt token metadata = record {
  upload_id = row.upload_id;
  kind = row.kind;
  method = row.method;
  endpoint = row.endpoint;
  payload = row.payload;
  content_type = row.content_type;
  idempotency_key = row.idempotency_key;
  request_id = row.request_id;
  attempt_count = attempt;
  max_attempts = row.max_attempts;
  lease_token = token;
  metadata = metadata;
}

-- `uuid id` is the token drawn for the row with that id.
module _ (lib : Runtime) (uuid : ℕ → String) (now lease : ℕ) (text : String) where
  -- The loop over the selected rows.
  unfoldable pub lease_rows : List Upload → List Upload → Result (List QueuedUpload × List Upload)
  unfolding lease_row queued
  lease_rows rows [] = ok ([], rows)
  lease_rows rows (row ∷ rest) =
      let token = uuid row.upload_id in
      let attempt = row.attempt_count + 1 in
      let hits = λ (r : Upload). has_id row.upload_id r && is_pending r.status in
      let skip = lease_rows rows rest in
      let go : Result (List QueuedUpload × List Upload) = (do
        metadata ← parse_json lib row.metadata_json
        later ← lease_rows (update hits (lease_row attempt (now + lease) token text) rows) rest
        ok (queued row attempt token metadata ∷ later.0, later.1)) in
      if any hits rows then go else skip

  unfoldable pub claim_uploads : ℕ → Storage → Result (List QueuedUpload × Storage)
  unfolding backfill_causal_links expire_leases select_ready lease_rows
  claim_uploads limit s = do
    guard (leb 1 limit && leb limit 1000) value_error
    guard (leb second lease && leb lease (86_400 * second)) value_error
    linked ← backfill_causal_links lib s.uploads
    let current = expire_leases now text linked
    claimed ← lease_rows current (select_ready now limit current)
    ok (claimed.0, record s { uploads = claimed.1 })
