-- ===== src/Cloud/Repository/Enrollment/Rotation.antt =====
-- InMemoryRepository: rotate_credential.
use Prim.Native.String.{◌++◌ as append}
use os_scanner.Prelude.{
  ℕ, ◌+◌, ◌*◌, min, String, ◌&&◌, some, ◌==◌, str_eq, find, Result, ok, guard, or_raise, ◌>>=◌,
  ◌>>◌, ownership_error, state_conflict,
}
use os_scanner.Json.{text, int, field, end}
use os_scanner.Cloud.Dict.{at_key, put}
use os_scanner.Cloud.Repository.{
  ReplayKey, DevicePrincipal, EndpointRecord, CredentialRecord, Repository, Answer, credential,
  replay_or, remember, audit, after_checks,
}

-- The key under which a rotation remembers its answer.
abbrev pub rotate_key : DevicePrincipal → String → ReplayKey
rotate_key p key = record {
  tenant = p.tenant_id;
  operation = append "rotate:" p.endpoint_id;
  key = key;
}

-- The checks of a rotation: the endpoint, and the current credential with its token hash.
unfoldable pub check_rotation :
    DevicePrincipal
    → ℕ
    → String
    → CredentialRecord
    → Repository
    → Result (EndpointRecord × (String × CredentialRecord))
unfolding at_key find
check_rotation p expected_generation expected_credential_id c s = do
  endpoint ← or_raise (at_key str_eq p.endpoint_id s.endpoints) ownership_error
  guard (str_eq endpoint.tenant_id p.tenant_id) ownership_error
  guard (expected_generation == p.generation && endpoint.credential_generation == p.generation)
      state_conflict
  guard (str_eq expected_credential_id p.credential_id) state_conflict
  guard (c.generation == p.generation + 1) state_conflict
  current ←
      or_raise (find (λ item. str_eq item.1.credential_id p.credential_id) s.credentials)
        state_conflict
  guard
      (str_eq current.1.tenant_id p.tenant_id
        && str_eq current.1.endpoint_id p.endpoint_id
        && current.1.generation == p.generation)
      state_conflict
  ok (endpoint, current)

-- The current credential stays valid for the overlap, and never beyond its own expiry.
abbrev pub supersede_credential : ℕ → ℕ → CredentialRecord → CredentialRecord
supersede_credential issued_at overlap current = record current {
  superseded_at = some issued_at;
  valid_until = some (min current.expires_at (issued_at + overlap));
}

-- What the call does when it is not a replay.
unfoldable pub issue_rotation :
    (at : ℕ) (p : DevicePrincipal) (expected_generation : ℕ) (expected_credential_id : String)
    (c : CredentialRecord) (overlap_seconds : ℕ) (replay : ReplayKey) (request_hash : String)
    → Repository
    → Answer
unfolding replay_or remember audit after_checks check_rotation put
issue_rotation at p expected_generation expected_credential_id c overlap_seconds replay request_hash
      s =
    after_checks (check_rotation p expected_generation expected_credential_id c s) s (λ found.
      let endpoint = found.0 in
      let current = found.1 in
      (
        ok (credential c),
        audit p.tenant_id "ENDPOINT_CREDENTIAL_ROTATED" "endpoint" (text p.endpoint_id) "endpoint"
            p.endpoint_id at (field "generation" (int c.generation) end)
            (remember replay request_hash (credential c) (record s {
              credentials = put str_eq c.token_hash c (
                  put str_eq current.0
                    (supersede_credential c.issued_at (overlap_seconds * 1_000_000) current.1)
                    s.credentials);
              endpoints =
                  put str_eq endpoint.endpoint_id
                    (record endpoint {
                      credential_generation = c.generation;
                      last_seen_at = c.issued_at;
                    })
                    s.endpoints;
            })),
      ))

unfoldable pub rotate_credential :
    (at : ℕ) (p : DevicePrincipal) (expected_generation : ℕ) (expected_credential_id : String)
    (c : CredentialRecord) (overlap_seconds : ℕ) (idempotency_key request_hash : String)
    → Repository
    → Answer
unfolding replay_or issue_rotation
rotate_credential at p expected_generation expected_credential_id c overlap_seconds idempotency_key
      request_hash =
    replay_or (rotate_key p idempotency_key) request_hash (
      issue_rotation at p expected_generation expected_credential_id c overlap_seconds
        (rotate_key p idempotency_key) request_hash)
