-- ===== src/Cloud/Examples.antt =====
-- Enrollment at work: an endpoint enrols with a grant and rotates its credential.
use os_scanner.Prelude.{◌≡◌, refl, true, none, some, [], ◌∷◌, ok, find}
use os_scanner.Prelude.Text.{show}
use os_scanner.Cloud.Dict.{at_key, put}
use os_scanner.Cloud.Repository.{
  DevicePrincipal, EndpointRecord, CredentialRecord, EnrollmentGrantRecord, Repository, credential,
  after_checks, remember, audit, replay_or,
}
use os_scanner.Cloud.Repository.Enrollment.{
  enroll_endpoint, enroll_new_endpoint, presented_grant, check_grant, consume,
}
use os_scanner.Cloud.Repository.Enrollment.Rotation.{
  rotate_credential, issue_rotation, check_rotation,
}
use os_scanner.Cloud.Repository.Enrollment.Grants.{rotate, enroll, grant_of}
use os_scanner.Cloud.Exchange.{lib, finite}
use os_scanner.Cloud.Service.History.{no_call, then_call, enrollment}
use os_scanner.Cloud.Service.Grants.{consumed_grant_kept}
use os_scanner.Cloud.Repository.Enrollment.Laws.{enroll_endpoint_again, rotate_credential_again}

abbrev endpoint : EndpointRecord
endpoint = record {
  tenant_id = "t";
  endpoint_id = "e";
  hostname = "host";
  os_family = "linux";
  os_version = "1";
  architecture = "x86_64";
  scanner_version = "1";
  credential_generation = 1;
  enrolled_at = 10;
  last_seen_at = 10;
}

abbrev first_credential : CredentialRecord
first_credential = record {
  tenant_id = "t";
  endpoint_id = "e";
  credential_id = "c1";
  token_hash = "h1";
  generation = 1;
  issued_at = 10;
  expires_at = 100;
  superseded_at = none;
  valid_until = none;
}

abbrev second_credential : CredentialRecord
second_credential = record first_credential {
  credential_id = "c2";
  token_hash = "h2";
  generation = 2;
  issued_at = 20;
}

abbrev open_grant : EnrollmentGrantRecord
open_grant = record {
  tenant_id = "t";
  grant_id = "g";
  token_hash = "gh";
  issued_by = "admin";
  issued_at = 5;
  expires_at = 50;
  os_family = some "linux";
  label = none;
  consumed_at = none;
  endpoint_id = none;
}

abbrev used_grant : EnrollmentGrantRecord
used_grant = consume endpoint first_credential open_grant

abbrev before_enrollment : Repository
before_enrollment = record {
  endpoints = [];
  credentials = [];
  enrollment_grants = ("gh", open_grant) ∷ [];
  scans = [];
  tasks = [];
  audit_events = [];
  rejections = [];
  inventory_states = [];
  idempotency = [];
}

abbrev after_enrollment : Repository
after_enrollment =
    (enroll_endpoint 11 "t" endpoint first_credential "k" "digest" (some "gh") before_enrollment).1

enrolled :
    enroll_endpoint 11 "t" endpoint first_credential "k" "digest" (some "gh") before_enrollment
    ≡ (ok (credential first_credential), after_enrollment)
unfolding enroll_endpoint enroll_new_endpoint after_checks presented_grant check_grant at_key put
    replay_or
enrolled = refl

enroll_endpoint_again_example :
    enroll_endpoint 12 "t" endpoint first_credential "k" "digest" (some "gh") after_enrollment
    ≡ (ok (credential first_credential), after_enrollment)
enroll_endpoint_again_example =
    enroll_endpoint_again 11 12 "t" endpoint first_credential "k" "digest" (some "gh")
      before_enrollment enrolled

abbrev principal : DevicePrincipal
principal = record { tenant_id = "t"; endpoint_id = "e"; credential_id = "c1"; generation = 1 }

abbrev after_rotation : Repository
after_rotation =
    (rotate_credential 21 principal 1 "c1" second_credential 5 "r" "digest" after_enrollment).1

rotated :
    rotate_credential 21 principal 1 "c1" second_credential 5 "r" "digest" after_enrollment
    ≡ (ok (credential second_credential), after_rotation)
unfolding rotate_credential issue_rotation check_rotation after_checks enroll_endpoint
    enroll_new_endpoint presented_grant check_grant at_key put replay_or find remember audit
rotated = refl

rotate_credential_again_example :
    rotate_credential 22 principal 1 "c1" second_credential 5 "r" "digest" after_rotation
    ≡ (ok (credential second_credential), after_rotation)
rotate_credential_again_example =
    rotate_credential_again 21 22 principal 1 "c1" second_credential 5 "r" "digest" after_enrollment
      rotated

grant_used : grant_of "gh" after_enrollment ≡ some used_grant
unfolding enroll_endpoint enroll_new_endpoint after_checks presented_grant check_grant at_key put
    replay_or remember audit
grant_used = refl

-- Another endpoint presents the used grant.
abbrev other_endpoint : EndpointRecord
other_endpoint = record endpoint { endpoint_id = "x" }

abbrev after_misuse : Repository
after_misuse =
    (enroll_endpoint 25 "t" other_endpoint second_credential "l" "digest" (some "gh")
      after_rotation).1

consumed_grant_kept_example : grant_of "gh" after_misuse ≡ some used_grant
consumed_grant_kept_example =
    consumed_grant_kept (λ a b. true) (λ s. none) lib finite show "gh" used_grant 10 refl
      (then_call
        (then_call no_call
          (enrollment (rotate 21 principal 1 "c1" second_credential 5 "r" "digest" refl)))
        (enrollment (enroll 25 "t" other_endpoint second_credential "l" "digest" (some "gh") refl)))
      grant_used
