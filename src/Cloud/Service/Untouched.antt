-- ===== src/Cloud/Service/Untouched.antt =====
-- The tables that the calls on tasks, grants, endpoints and credentials do not write.
use os_scanner.Cloud.Inventory.{InventoryState}
use os_scanner.Prelude.{List, ℕ, String, ◌≡◌, arith, Option-cases, Result-cases, inl, inr, subst}
use os_scanner.Cloud.Repository.{
  ScanRecord, AnalysisTask, EnrollmentGrantRecord, Repository, ReplayKey, replay_or, remember,
  audit, after_checks, Answer,
}
use os_scanner.Cloud.Repository.Enrollment.{
  create_new_grant, enroll_new_endpoint, create_enrollment_grant, enroll_endpoint, create_key,
  enroll_key, presented_grant,
}
use os_scanner.Cloud.Repository.Enrollment.Rotation.{
  check_rotation, issue_rotation, rotate_credential, rotate_key,
}
use os_scanner.Cloud.Repository.Enrollment.Grants.{Call, create, enroll, rotate}
use os_scanner.Cloud.Repository.Tasks.{
  claim_analysis_task, complete_analysis_task, fail_analysis_task, leased_task, next_task,
}
use os_scanner.Cloud.Repository.Tasks.Calls.{TaskCall, claim, complete, fail}

-- The tables of scans, of inventory states and of grants.
abbrev without_tasks :
    Repository
    → List (String × ScanRecord)
      × List ((String × String) × InventoryState)
      × List (String × EnrollmentGrantRecord)
without_tasks s = (s.scans, s.inventory_states, s.enrollment_grants)

-- The tables of scans, of inventory states and of tasks.
abbrev without_grants :
    Repository
    → List (String × ScanRecord)
      × List ((String × String) × InventoryState)
      × List (String × AnalysisTask)
without_grants s = (s.scans, s.inventory_states, s.tasks)

-- A step that changes no task, no scan and no inventory state.
abbrev pub IsEnrolling : Repository → Repository → Type 0
IsEnrolling s s' = without_grants s' ≡ without_grants s

-- A step that changes no grant, no scan and no inventory state.
abbrev pub IsWorking : Repository → Repository → Type 0
IsWorking s s' = without_tasks s' ≡ without_tasks s

pub TaskCall-IsWorking : {s s' : Repository} → TaskCall s s' → IsWorking s s'
unfolding claim_analysis_task complete_analysis_task fail_analysis_task
TaskCall-IsWorking {s} (claim kind worker_id lease_seconds now e) =
    elim (Option-cases (next_task kind now s.tasks)) [
      | inl nothing ↦ ground (arith, nothing, e)
      | inr (t, found) ↦ ground (arith, found, e)
    ]
TaskCall-IsWorking {s} (complete task_id worker_id result now e) =
    elim (Result-cases (leased_task task_id worker_id s.tasks)) [
      | inr (error, refused) ↦ absurd (ground (arith, refused, e))
      | inl (t, found) ↦ ground (arith, found, e)
    ]
TaskCall-IsWorking {s} (fail task_id worker_id error retry_at dead_letter now e) =
    elim (Result-cases (leased_task task_id worker_id s.tasks)) [
      | inr (error, refused) ↦ absurd (ground (arith, refused, e))
      | inl (t, found) ↦ ground (arith, found, e)
    ]

replay_or-IsEnrolling :
    (key : ReplayKey) (digest : String) (body : Repository → Answer) (s : Repository)
    → IsEnrolling s (body s).1
    → IsEnrolling s (replay_or key digest body s).1
unfolding replay_or
replay_or-IsEnrolling key digest body s kept = ground (arith, kept)

pub EnrollmentCall-IsEnrolling :
    (isoformat : ℕ → String) {s s' : Repository} → Call isoformat s s' → IsEnrolling s s'
unfolding create_enrollment_grant enroll_endpoint rotate_credential create_new_grant
    enroll_new_endpoint issue_rotation after_checks audit remember
EnrollmentCall-IsEnrolling isoformat {s} (create at g key digest e) = subst (IsEnrolling s) e (
    replay_or-IsEnrolling (create_key g key) digest
      (create_new_grant isoformat at g (create_key g key) digest) s (ground (arith)))
EnrollmentCall-IsEnrolling isoformat {s} (enroll at tenant_id endpoint c key digest grant_hash e) =
    subst (IsEnrolling s) e (
      replay_or-IsEnrolling (enroll_key tenant_id key) digest
        (enroll_new_endpoint at tenant_id endpoint c grant_hash (enroll_key tenant_id key) digest) s
        (elim (Result-cases (presented_grant tenant_id endpoint c grant_hash s)) [
          | inr (error, refused) ↦ ground (arith, refused)
          | inl (presented, shown) ↦ ground (arith, shown)
        ]))
EnrollmentCall-IsEnrolling isoformat {s}
      (rotate at p generation credential_id c overlap key digest e) =
    subst (IsEnrolling s) e (
      replay_or-IsEnrolling (rotate_key p key) digest
        (issue_rotation at p generation credential_id c overlap (rotate_key p key) digest) s
        (elim (Result-cases (check_rotation p generation credential_id c s)) [
          | inr (error, refused) ↦ ground (arith, refused)
          | inl (checked, found) ↦ ground (arith, found)
        ]))
