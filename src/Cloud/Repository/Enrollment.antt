-- ===== src/Cloud/Repository/Enrollment.antt =====
-- InMemoryRepository: authenticate_device, authenticate_enrollment_grant, create_enrollment_grant and
-- enroll_endpoint.
pub mod Rotation
pub mod Laws
pub mod Grants
use Prim.Native.String.{◌++◌ as append}
use os_scanner.Prelude.{
  ℕ, ◌+◌, ◌*◌, min, String, Bool, true, false, not, ◌&&◌, ◌||◌, Option, none, some, List, [], ◌∷◌,
  leb, ltb, ◌==◌, str_eq, if◌then◌else◌, find, Result, ok, err, guard, or_raise, ◌>>=◌, ◌>>◌,
  ownership_error, state_conflict, is_none,
}
use os_scanner.Json.{Json, Fields, text, int, null, field, end}
use os_scanner.Storage.Audit.{optional}
use os_scanner.Cloud.Dict.{at_key, put}
use os_scanner.Cloud.Repository.{
  ReplayKey, DevicePrincipal, EndpointRecord, CredentialRecord, EnrollmentGrantRecord, Repository,
  Answer, grant, credential, replay_or, remember, audit, after_checks,
}

abbrev pub is_set {ℓ} : {A : Type ℓ} → Option A → Bool
is_set o = not (is_none o)

-- `value is not None and now >= value`
abbrev pub has_passed : Option ℕ → ℕ → Bool
has_passed none now = false
has_passed (some t) now = leb t now

unfoldable pub authenticate_device : String → ℕ → Repository → Option DevicePrincipal
unfolding at_key
authenticate_device token_hash now s = elim (at_key str_eq token_hash s.credentials) [
  | none ↦ none
  | some c ↦
      if leb c.expires_at now || has_passed c.valid_until now
      then none
      else some (record {
        tenant_id = c.tenant_id;
        endpoint_id = c.endpoint_id;
        credential_id = c.credential_id;
        generation = c.generation;
      })
]

unfoldable pub authenticate_enrollment_grant :
    String → ℕ → Repository → Option EnrollmentGrantRecord
unfolding at_key
authenticate_enrollment_grant token_hash now s =
    elim (at_key str_eq token_hash s.enrollment_grants) [
      | none ↦ none
      | some g ↦ if leb g.expires_at now then none else some g
    ]

-- The keys under which the two operations remember their answers.
abbrev pub create_key : EnrollmentGrantRecord → String → ReplayKey
create_key g key = record { tenant = g.tenant_id; operation = "create-enrollment-grant"; key = key }

abbrev pub enroll_key : String → String → ReplayKey
enroll_key tenant_id key = record { tenant = tenant_id; operation = "enroll"; key = key }

-- What the call does when it is not a replay. `isoformat` is datetime.isoformat, and `at` the instant
-- that `_audit` reads.
unfoldable pub create_new_grant :
    (isoformat : ℕ → String) (at : ℕ) (g : EnrollmentGrantRecord) (replay : ReplayKey)
    (request_hash : String)
    → Repository
    → Answer
unfolding replay_or remember audit after_checks at_key put
create_new_grant isoformat at g replay request_hash s =
    after_checks
      (guard (not (is_set (at_key str_eq g.token_hash s.enrollment_grants))) state_conflict) s
      (λ checked. (
        ok (grant g),
        audit g.tenant_id "ENDPOINT_ENROLLMENT_GRANT_CREATED" "platform" (text g.issued_by)
            "enrollment-grant" g.grant_id at
            (field "expires_at" (text (isoformat g.expires_at))
              (field "os_family" (optional g.os_family) end))
            (remember replay request_hash (grant g)
              (record s { enrollment_grants = put str_eq g.token_hash g s.enrollment_grants })),
      ))

unfoldable pub create_enrollment_grant :
    (isoformat : ℕ → String) (at : ℕ) (g : EnrollmentGrantRecord)
    (idempotency_key request_hash : String)
    → Repository
    → Answer
unfolding replay_or create_new_grant
create_enrollment_grant isoformat at g idempotency_key request_hash =
    replay_or (create_key g idempotency_key) request_hash
      (create_new_grant isoformat at g (create_key g idempotency_key) request_hash)

-- `grant.os_family is not None and grant.os_family != endpoint.os_family`
abbrev pub is_for_other_system : Option String → String → Bool
is_for_other_system none os_family = false
is_for_other_system (some a) os_family = not (str_eq a os_family)

-- The checks of the grant that an enrollment presents.
unfoldable pub check_grant :
    String
    → EndpointRecord
    → CredentialRecord
    → EnrollmentGrantRecord
    → Result EnrollmentGrantRecord
check_grant tenant_id endpoint c g = do
  guard (str_eq g.tenant_id tenant_id) ownership_error
  guard (not (leb g.expires_at c.issued_at)) state_conflict
  guard (is_none g.consumed_at) state_conflict
  guard (not (is_for_other_system g.os_family endpoint.os_family)) state_conflict
  ok g

unfoldable pub presented_grant :
    String
    → EndpointRecord
    → CredentialRecord
    → Option String
    → Repository
    → Result (Option EnrollmentGrantRecord)
unfolding check_grant at_key
presented_grant tenant_id endpoint c none s = ok none
presented_grant tenant_id endpoint c (some hash) s = do
  g ← or_raise (at_key str_eq hash s.enrollment_grants) ownership_error
  checked ← check_grant tenant_id endpoint c g
  ok (some checked)

-- `replace(grant, consumed_at=..., endpoint_id=...)`
abbrev pub consume :
    EndpointRecord → CredentialRecord → EnrollmentGrantRecord → EnrollmentGrantRecord
consume endpoint c g = record g {
  consumed_at = some c.issued_at;
  endpoint_id = some endpoint.endpoint_id;
}

abbrev pub consume_grant :
    EndpointRecord
    → CredentialRecord
    → Option String
    → Option EnrollmentGrantRecord
    → List (String × EnrollmentGrantRecord)
    → List (String × EnrollmentGrantRecord)
consume_grant endpoint c (some hash) (some g) grants = put str_eq hash (consume endpoint c g) grants
consume_grant endpoint c hash _ grants = grants

abbrev enrolled_by : Option EnrollmentGrantRecord → String → String × String
enrolled_by none tenant_id = ("bootstrap", tenant_id)
enrolled_by (some g) tenant_id = ("enrollment-grant", g.grant_id)

-- What the call does when it is not a replay.
unfoldable pub enroll_new_endpoint :
    (at : ℕ) (tenant_id : String) (endpoint : EndpointRecord) (c : CredentialRecord)
    (enrollment_grant_hash : Option String) (replay : ReplayKey) (request_hash : String)
    → Repository
    → Answer
unfolding replay_or remember audit after_checks presented_grant at_key put
enroll_new_endpoint at tenant_id endpoint c enrollment_grant_hash replay request_hash s =
    after_checks
      (do
        presented ← presented_grant tenant_id endpoint c enrollment_grant_hash s
        guard
            (not (
              is_set (at_key str_eq endpoint.endpoint_id s.endpoints)
              || is_set (at_key str_eq c.token_hash s.credentials)))
            state_conflict
        ok presented)
      s
      (λ presented. (
        ok (credential c),
        audit tenant_id "ENDPOINT_ENROLLED" (enrolled_by presented tenant_id).0
            (text (enrolled_by presented tenant_id).1) "endpoint" endpoint.endpoint_id at end
            (remember replay request_hash (credential c) (record s {
              endpoints = put str_eq endpoint.endpoint_id endpoint s.endpoints;
              credentials = put str_eq c.token_hash c s.credentials;
              enrollment_grants =
                  consume_grant endpoint c enrollment_grant_hash presented s.enrollment_grants;
            })),
      ))

unfoldable pub enroll_endpoint :
    (at : ℕ) (tenant_id : String) (endpoint : EndpointRecord) (c : CredentialRecord)
    (idempotency_key request_hash : String) (enrollment_grant_hash : Option String)
    → Repository
    → Answer
unfolding replay_or enroll_new_endpoint
enroll_endpoint at tenant_id endpoint c idempotency_key request_hash enrollment_grant_hash =
    replay_or (enroll_key tenant_id idempotency_key) request_hash (
      enroll_new_endpoint at tenant_id endpoint c enrollment_grant_hash
        (enroll_key tenant_id idempotency_key) request_hash)
