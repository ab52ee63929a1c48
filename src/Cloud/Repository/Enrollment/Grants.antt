-- ===== src/Cloud/Repository/Enrollment/Grants.antt =====
-- Enrollment grants and their consumption, over calls that create, enrol and rotate.
use os_scanner.Prelude.{
  ℕ, String, ◌≡◌, Option, none, some, arith, str_eq, Bool-cases, inl, inr, eq_iff, ok, Result-cases,
  subst, ◌∙◌,
}
use os_scanner.Cloud.Dict.{at_key, at_key-put_other_text}
use os_scanner.Cloud.Repository.{
  DevicePrincipal, EndpointRecord, CredentialRecord, EnrollmentGrantRecord, Repository, ReplayKey,
  replay_or, remember, audit, after_checks, Answer,
}
use os_scanner.Cloud.Repository.Enrollment.{
  create_new_grant, enroll_new_endpoint, create_enrollment_grant, enroll_endpoint, presented_grant,
  check_grant, consume_grant, consume, create_key, enroll_key,
}
use os_scanner.Cloud.Repository.Enrollment.Rotation.{issue_rotation, rotate_credential, rotate_key}

module _ (isoformat : ℕ → String) where
  -- One call, whether it answers or raises: the tables after it.
  pub data Call (s s' : Repository) : Type 0 where
    create :
        (at : ℕ) (g : EnrollmentGrantRecord) (key digest : String)
        → (create_enrollment_grant isoformat at g key digest s).1 ≡ s'
        → Call s s'
    enroll :
        (at : ℕ) (tenant_id : String) (endpoint : EndpointRecord) (c : CredentialRecord)
        (key digest : String) (grant_hash : Option String)
        → (enroll_endpoint at tenant_id endpoint c key digest grant_hash s).1 ≡ s'
        → Call s s'
    rotate :
        (at : ℕ) (p : DevicePrincipal) (generation : ℕ) (credential_id : String)
        (c : CredentialRecord) (overlap : ℕ) (key digest : String)
        → (rotate_credential at p generation credential_id c overlap key digest s).1 ≡ s'
        → Call s s'

-- The grant that a token hash stands for.
abbrev pub grant_of : String → Repository → Option EnrollmentGrantRecord
grant_of hash s = at_key str_eq hash s.enrollment_grants

module _ (hash : String) (g : EnrollmentGrantRecord) (used : ℕ)
    (consumed : g.consumed_at ≡ some used) where
  replay_or-keeps :
      (key : ReplayKey) (digest : String) (body : Repository → Answer) (s : Repository)
      → grant_of hash s ≡ some g
      → grant_of hash (body s).1 ≡ some g
      → grant_of hash (replay_or key digest body s).1 ≡ some g
  unfolding replay_or
  replay_or-keeps key digest body s found kept = ground (arith, found, kept)

  create_new_grant-keeps :
      (isoformat : ℕ → String) (at : ℕ) (new : EnrollmentGrantRecord) (replay : ReplayKey)
      (digest : String) (s : Repository)
      → grant_of hash s ≡ some g
      → grant_of hash (create_new_grant isoformat at new replay digest s).1 ≡ some g
  unfolding create_new_grant after_checks audit remember
  create_new_grant-keeps isoformat at new replay digest s found =
      elim (Bool-cases (str_eq new.token_hash hash)) [
        | inl same ↦ ground (arith, found, same, eq_iff new.token_hash hash)
        | inr other ↦
            ground (
              arith,
              found,
              at_key-put_other_text new.token_hash hash new s.enrollment_grants other,
            )
      ]

  presented_grant-unused :
      (tenant_id : String) (endpoint : EndpointRecord) (c : CredentialRecord) (s : Repository)
      {shown : Option EnrollmentGrantRecord}
      → grant_of hash s ≡ some g
      → presented_grant tenant_id endpoint c (some hash) s ≡ ok shown
      → ⊥
  unfolding presented_grant check_grant
  presented_grant-unused tenant_id endpoint c s found shown = ground (arith, found, shown, consumed)

  put-consume-keeps :
      (tenant_id : String) (endpoint : EndpointRecord) (c : CredentialRecord)
      (grant_hash : Option String) (s : Repository) (shown : Option EnrollmentGrantRecord)
      → grant_of hash s ≡ some g
      → presented_grant tenant_id endpoint c grant_hash s ≡ ok shown
      → at_key str_eq hash (consume_grant endpoint c grant_hash shown s.enrollment_grants) ≡ some g
  put-consume-keeps tenant_id endpoint c none s shown found e = found
  put-consume-keeps tenant_id endpoint c (some other) s none found e = found
  put-consume-keeps tenant_id endpoint c (some other) s (some shown) found e =
      elim (Bool-cases (str_eq other hash)) [
        | inl same ↦ absurd (
            presented_grant-unused tenant_id endpoint c s found (
              subst (λ h. presented_grant tenant_id endpoint c (some h) s ≡ ok (some shown))
                ((eq_iff other hash).0 same) e))
        | inr differ ↦
            at_key-put_other_text other hash (consume endpoint c shown) s.enrollment_grants differ
            ∙ found
      ]

  enroll_new_endpoint-keeps :
      (at : ℕ) (tenant_id : String) (endpoint : EndpointRecord) (c : CredentialRecord)
      (grant_hash : Option String) (replay : ReplayKey) (digest : String) (s : Repository)
      → grant_of hash s ≡ some g
      → grant_of hash (enroll_new_endpoint at tenant_id endpoint c grant_hash replay digest s).1
        ≡ some g
  unfolding enroll_new_endpoint after_checks audit remember
  enroll_new_endpoint-keeps at tenant_id endpoint c grant_hash replay digest s found =
      elim (Result-cases (presented_grant tenant_id endpoint c grant_hash s)) [
        | inl (shown, e) ↦
            ground
              (arith, found, e, put-consume-keeps tenant_id endpoint c grant_hash s shown found e)
        | inr (error, e) ↦ ground (arith, found, e)
      ]

  issue_rotation-keeps :
      (at : ℕ) (p : DevicePrincipal) (generation : ℕ) (credential_id : String)
      (c : CredentialRecord) (overlap : ℕ) (replay : ReplayKey) (digest : String) (s : Repository)
      → grant_of hash s ≡ some g
      → grant_of hash (issue_rotation at p generation credential_id c overlap replay digest s).1
        ≡ some g
  unfolding issue_rotation after_checks audit remember
  issue_rotation-keeps at p generation credential_id c overlap replay digest s found =
      ground (arith, found)

  pub Call-keeps :
      (isoformat : ℕ → String) {s s' : Repository}
      → Call isoformat s s'
      → grant_of hash s ≡ some g
      → grant_of hash s' ≡ some g
  unfolding create_enrollment_grant enroll_endpoint rotate_credential
  Call-keeps isoformat {s} (create at new key digest e) found =
      subst (λ x. grant_of hash x ≡ some g) e
        (replay_or-keeps (create_key new key) digest
          (create_new_grant isoformat at new (create_key new key) digest) s found
          (create_new_grant-keeps isoformat at new (create_key new key) digest s found))
  Call-keeps isoformat {s} (enroll at tenant_id endpoint c key digest shown e) found =
      subst (λ x. grant_of hash x ≡ some g) e
        (replay_or-keeps (enroll_key tenant_id key) digest
          (enroll_new_endpoint at tenant_id endpoint c shown (enroll_key tenant_id key) digest) s
          found
          (enroll_new_endpoint-keeps at tenant_id endpoint c shown (enroll_key tenant_id key) digest
            s found))
  Call-keeps isoformat {s} (rotate at p generation id c overlap key digest e) found =
      subst (λ x. grant_of hash x ≡ some g) e
        (replay_or-keeps (rotate_key p key) digest
          (issue_rotation at p generation id c overlap (rotate_key p key) digest) s found
          (issue_rotation-keeps at p generation id c overlap (rotate_key p key) digest s found))
