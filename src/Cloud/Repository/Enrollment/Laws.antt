-- ===== src/Cloud/Repository/Enrollment/Laws.antt =====
-- Enrollment and rotation, sent again with the same key.
use os_scanner.Prelude.{ℕ, String, ◌≡◌, Option, arith, ok}
use os_scanner.Cloud.Repository.{
  DevicePrincipal, EndpointRecord, CredentialRecord, Repository, Response, remember, audit,
  after_checks, replay_or-again,
}
use os_scanner.Cloud.Repository.Enrollment.{enroll_key, enroll_new_endpoint, enroll_endpoint}
use os_scanner.Cloud.Repository.Enrollment.Rotation.{rotate_key, issue_rotation, rotate_credential}

-- The same enrollment sent again, with the same key and content, gives the same credential and
-- changes nothing.
pub enroll_endpoint_again :
    (at at' : ℕ) (tenant_id : String) (endpoint : EndpointRecord) (c : CredentialRecord)
    (key request_hash : String) (grant_hash : Option String) (s : Repository) {r : Response}
    {s' : Repository}
    → enroll_endpoint at tenant_id endpoint c key request_hash grant_hash s ≡ (ok r, s')
    → enroll_endpoint at' tenant_id endpoint c key request_hash grant_hash s' ≡ (ok r, s')
unfolding enroll_endpoint
enroll_endpoint_again at at' tenant_id endpoint c key request_hash grant_hash s {r} {s'} e =
    let replay = enroll_key tenant_id key in
    replay_or-again replay request_hash
      (enroll_new_endpoint at tenant_id endpoint c grant_hash replay request_hash)
      (enroll_new_endpoint at' tenant_id endpoint c grant_hash replay request_hash) s e
      (λ fresh. unfold enroll_new_endpoint after_checks remember audit in ground (arith, fresh))

-- The same rotation sent again gives the same credential and changes nothing.
pub rotate_credential_again :
    (at at' : ℕ) (p : DevicePrincipal) (generation : ℕ) (credential_id : String)
    (c : CredentialRecord) (overlap : ℕ) (key digest : String) (s : Repository) {r : Response}
    {s' : Repository}
    → rotate_credential at p generation credential_id c overlap key digest s ≡ (ok r, s')
    → rotate_credential at' p generation credential_id c overlap key digest s' ≡ (ok r, s')
unfolding rotate_credential
rotate_credential_again at at' p generation credential_id c overlap key digest s {r} {s'} e =
    let replay = rotate_key p key in
    replay_or-again replay digest
      (issue_rotation at p generation credential_id c overlap replay digest)
      (issue_rotation at' p generation credential_id c overlap replay digest) s e
      (λ fresh. unfold issue_rotation after_checks remember audit in ground (arith, fresh))
