-- ===== src/Cloud/Repository/Jobs.antt =====
-- _timestamp, _job_dispatch_eligibility and claim_next_job: which scan an endpoint is handed.
pub mod Dispatch
use Prim.Native.Char.{Char}
use Prim.Native.String.{◌++◌ as append}
use os_scanner.Prelude.{
  ℕ, ◌+◌, ◌*◌, String, Bool, true, false, not, ◌&&◌, ◌||◌, Option, none, some, List, [], ◌∷◌, leb,
  ltb, ◌==◌, str_eq, if◌then◌else◌, sort_by, map, Result, ok, err, guard, or_raise, ◌>>=◌, ◌>>◌,
  key_error, not_found, state_conflict,
}
use os_scanner.Json.{
  Json, Items, Fields, null, bool, int, text, list, nil, cons, field, end, as_object, as_list,
  is_true, lookup, get,
}
use os_scanner.Cloud.Dict.{at_key, put}
use os_scanner.Cloud.Repository.{
  DevicePrincipal, EndpointRecord, ScanRecord, Repository, ReplayKey, Response, Answer, scan,
  replay_or, remember, audit,
}
use os_scanner.Cloud.Repository.Enrollment.{is_set}

-- value.replace("Z", "+00:00")
unfoldable pub with_offset : String → String
with_offset String.[] = String.[]
with_offset (String.◌∷◌ c s) =
    let rest = with_offset s in
    if str_eq (String.◌∷◌ c String.[]) "Z" then append "+00:00" rest else String.◌∷◌ c rest

-- `endpoint_id in allowed`
unfoldable pub is_listed : String → Items → Bool
is_listed s nil = false
is_listed s (cons (text a) rest) = str_eq a s || is_listed s rest
is_listed s (cons _ rest) = is_listed s rest

pub data Eligibility : Type 0 where
  eligible active waiting expired : Eligibility

abbrev pub dispatch_grace : ℕ
dispatch_grace = 60

-- What follows once the window of the authorization is known to be open.
unfoldable pub lease_eligibility : ScanRecord → ℕ → Eligibility
unfolding get
lease_eligibility r now =
    if str_eq r.state "QUEUED"
    then eligible
    else if not (str_eq r.state "DISPATCHED")
    then active
    else elim (get "timeout_seconds" r.job_document) [
      | int timeout ↦
          if leb 10 timeout && leb timeout 86_400
          then if leb (r.updated_at + (timeout + dispatch_grace) * 1_000_000) now
            then eligible
            else active
          else expired
      | _ ↦ expired
    ]

-- `fromisoformat` is datetime.fromisoformat: `none` where it raises, `some none` for an instant
-- without a time zone.
module _ (fromisoformat : String → Option (Option ℕ)) where
  -- _timestamp
  unfoldable pub timestamp : Json → Option ℕ
  unfolding with_offset
  timestamp (text value) = elim (fromisoformat (with_offset value)) [
    | none ↦ none
    | some instant ↦ instant
  ]
  timestamp _ = none

  -- The checks of `not_before` and of the state.
  unfoldable pub start_eligibility : ScanRecord → ℕ → Eligibility
  unfolding timestamp lease_eligibility get
  start_eligibility r now = elim (get "not_before" r.job_document) [
    | null ↦ lease_eligibility r now
    | value ↦ elim (timestamp value) [
      | none ↦ expired
      | some not_before ↦ if ltb now not_before then waiting else lease_eligibility r now
    ]
  ]

  -- The checks of the authorization's own fields.
  unfoldable pub window_eligibility : Fields → ℕ → ScanRecord → String → ℕ → Eligibility
  unfolding timestamp start_eligibility get
  window_eligibility authorization deadline r endpoint_id now =
      elim (timestamp (get "valid_from" authorization)) [
        | none ↦ expired
        | some valid_from ↦ elim (timestamp (get "expires_at" authorization)) [
          | none ↦ expired
          | some expires_at ↦ elim (as_list (get "allowed_endpoint_ids" authorization)) [
            | none ↦ expired
            | some allowed ↦
                if not (is_true (get "authorized" authorization))
                  || not (is_listed endpoint_id allowed)
                then expired
                else if leb deadline now || leb expires_at now
                then expired
                else if ltb now valid_from
                then waiting
                else start_eligibility r now
          ]
        ]
      ]

  -- _job_dispatch_eligibility
  unfoldable pub job_dispatch_eligibility : ScanRecord → String → ℕ → Eligibility
  unfolding timestamp window_eligibility get
  job_dispatch_eligibility r endpoint_id now =
      elim (as_object (get "authorization" r.job_document)) [
        | none ↦ expired
        | some authorization ↦ elim (timestamp (get "deadline" r.job_document)) [
          | none ↦ expired
          | some deadline ↦ window_eligibility authorization deadline r endpoint_id now
        ]
      ]

  -- The scans that the loop of `claim_next_job` does not skip at once.
  abbrev pub is_open_for : DevicePrincipal → ScanRecord → Bool
  is_open_for p r =
      str_eq r.tenant_id p.tenant_id
      && str_eq r.endpoint_id p.endpoint_id
      && (str_eq r.state "QUEUED" || str_eq r.state "DISPATCHED")

  unfoldable pub expire_scan : DevicePrincipal → ScanRecord → ℕ → ℕ → Repository → Repository
  unfolding audit put
  expire_scan p r now at s =
      audit p.tenant_id "SCAN_EXPIRED" "control-plane" (text "dispatcher") "scan" r.scan_id at end
        (record s {
          scans = put str_eq r.scan_id (record r { state = "EXPIRED"; updated_at = now }) s.scans;
        })

  -- The claim of a scan. The audit record reads `timeout_seconds` after the scan was changed.
  unfoldable pub dispatch_scan :
      DevicePrincipal → ScanRecord → ℕ → ℕ → Repository → Result (Option ScanRecord) × Repository
  unfolding audit put
  dispatch_scan p r now at s =
      let claimed : ScanRecord = record r { state = "DISPATCHED"; updated_at = now } in
      let changed : Repository = record s { scans = put str_eq r.scan_id claimed s.scans } in
      let event = if str_eq r.state "DISPATCHED" then "SCAN_REDISPATCHED" else "SCAN_DISPATCHED" in
      elim (lookup "timeout_seconds" r.job_document) [
        | none ↦ (err key_error, changed)
        | some timeout ↦ (
          ok (some claimed),
          audit p.tenant_id event "endpoint" (text p.endpoint_id) "scan" r.scan_id at
              (field "lease_timeout_seconds" timeout
                (field "lease_grace_seconds" (int dispatch_grace) end))
              changed,
        )
      ]

  -- The loop over the candidates.
  unfoldable pub dispatch_first :
      DevicePrincipal
      → ℕ
      → ℕ
      → List ScanRecord
      → Repository
      → Result (Option ScanRecord) × Repository
  unfolding job_dispatch_eligibility expire_scan dispatch_scan
  dispatch_first p now at [] s = (ok none, s)
  dispatch_first p now at (r ∷ rest) s =
      let others = dispatch_first p now at rest in
      if is_open_for p r
      then elim (job_dispatch_eligibility r p.endpoint_id now) [
        | expired ↦ others (expire_scan p r now at s)
        | eligible ↦ dispatch_scan p r now at s
        | active ↦ others s
        | waiting ↦ others s
      ]
      else others s

  abbrev pub scan_of : String × ScanRecord → ScanRecord
  scan_of item = item.1

  -- `last_seen_at` of the calling endpoint
  abbrev pub see_endpoint : DevicePrincipal → ℕ → Repository → Repository
  see_endpoint p now s = elim (at_key str_eq p.endpoint_id s.endpoints) [
    | none ↦ s
    | some endpoint ↦
        if str_eq endpoint.tenant_id p.tenant_id
        then record s {
          endpoints = put str_eq p.endpoint_id (record endpoint { last_seen_at = now }) s.endpoints;
        }
        else s
  ]

  unfoldable pub claim_next_job :
      DevicePrincipal → ℕ → ℕ → Repository → Result (Option ScanRecord) × Repository
  unfolding dispatch_first at_key put sort_by
  claim_next_job p now at s =
      let seen = see_endpoint p now s in
      dispatch_first p now at (sort_by (λ r. r.created_at) (map scan_of seen.scans)) seen
