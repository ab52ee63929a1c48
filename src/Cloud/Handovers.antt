-- ===== src/Cloud/Handovers.antt =====
-- The repository hands out work: a worker claims and completes an analysis task, and an endpoint is
-- handed a scan.
use os_scanner.Prelude.{
  ℕ, false, String, ◌≡◌, refl, true, Option, none, some, [], ◌∷◌, ok, str_eq, sort_by, find,
  if◌then◌else◌,
}
use os_scanner.Json.{
  Fields, object, text, list, cons, nil, bool, int, field, end, get, lookup, same_json, is_within,
}
use os_scanner.Cloud.Dict.{at_key, put}
use os_scanner.Cloud.Repository.{
  DevicePrincipal, ScanRecord, AnalysisTask, Repository, replay_or, after_checks, remember, audit,
  osv, pending, failed, succeeded,
}
use os_scanner.Cloud.Repository.Tasks.{
  lease_task, claim_analysis_task, complete_analysis_task, next_task, leased_task,
}
use os_scanner.Cloud.Repository.Tasks.Leases.{task_of, IsFree, IsLeased, claim_analysis_task-leases}
use os_scanner.Cloud.Repository.Tasks.Calls.{claim}
use os_scanner.Cloud.Repository.Tasks.Settled.{completed, IsSettled, Settlement-IsSettled}
use os_scanner.Cloud.Service.Settled.{settled_task_kept}
use os_scanner.Cloud.Repository.Jobs.{
  claim_next_job, dispatch_first, job_dispatch_eligibility, window_eligibility, start_eligibility,
  lease_eligibility, dispatch_scan, timestamp, with_offset, is_listed,
}
use os_scanner.Cloud.Repository.Scans.{
  record_scan_status, accept_scan_status, owned_scan, validate_scan_status, agree_on,
}
use os_scanner.Cloud.Exchange.{lib, finite}
use os_scanner.Cloud.Repository.Refusals.{Rejection, record_rejection}
use os_scanner.Cloud.Repository.Scans.Changes.{scan_at, Holds}
use os_scanner.Cloud.Service.History.{scan_record_kept, status, reject, task, no_call, then_call}
use os_scanner.Cloud.Repository.Jobs.Dispatch.{IsHanded, claim_next_job-IsHanded}

abbrev empty_repository : Repository
empty_repository = record {
  endpoints = [];
  credentials = [];
  enrollment_grants = [];
  scans = [];
  tasks = [];
  audit_events = [];
  rejections = [];
  inventory_states = [];
  idempotency = [];
}

abbrev principal : DevicePrincipal
principal = record { tenant_id = "t"; endpoint_id = "e"; credential_id = "c1"; generation = 1 }

abbrev new_task : AnalysisTask
new_task = record {
  task_id = "task";
  tenant_id = "t";
  endpoint_id = "e";
  scan_id = "scan";
  kind = osv;
  state = pending;
  attempts = 0;
  payload = end;
  created_at = 30;
  updated_at = 30;
  available_at = 30;
  lease_expires_at = none;
  leased_by = none;
  last_error = none;
  result = none;
}

abbrev with_task : Repository
with_task = record empty_repository { tasks = ("task", new_task) ∷ [] }

abbrev leased : AnalysisTask
leased = lease_task "w" 60 40 new_task

abbrev with_lease : Repository
with_lease = record empty_repository { tasks = ("task", leased) ∷ [] }

task_claimed : claim_analysis_task osv "w" 60 40 with_task ≡ ok (some leased, with_lease)
unfolding claim_analysis_task next_task sort_by find put
task_claimed = refl

claim_analysis_task-leases_example :
    ((t : AnalysisTask) × (task_of "task" with_task ≡ some t)
      × IsFree osv 40 t
      × IsLeased "w" 60 40 t leased
      × (task_of "task" with_lease ≡ some leased))
    × ((id : String) → str_eq "task" id ≡ false → task_of id with_lease ≡ task_of id with_task)
claim_analysis_task-leases_example =
    claim_analysis_task-leases osv "w" 60 40 with_task (refl, tt, tt) task_claimed

abbrev with_result : Repository
with_result = record empty_repository {
  tasks =
      (
        "task",
        record leased {
          state = succeeded;
          result = some end;
          lease_expires_at = none;
          leased_by = none;
          updated_at = 50;
        },
      )
      ∷ [];
}

task_completed : complete_analysis_task "task" "w" end 50 with_lease ≡ ok with_result
unfolding complete_analysis_task leased_task at_key put
task_completed = refl

Settlement-IsSettled_example :
    IsSettled {id = "task"} {worker = "w"} {s = with_lease} {s' = with_result}
      (completed end 50 task_completed)
Settlement-IsSettled_example = Settlement-IsSettled "task" "w" (completed end 50 task_completed)

abbrev failed_task : AnalysisTask
failed_task = record new_task { state = failed; attempts = 5 }

abbrev two_tasks : Repository
two_tasks = record empty_repository {
  tasks = ("dead", record failed_task { task_id = "dead" }) ∷ ("task", new_task) ∷ [];
}

abbrev one_leased : Repository
one_leased = record empty_repository {
  tasks = ("dead", record failed_task { task_id = "dead" }) ∷ ("task", leased) ∷ [];
}

second_claimed : claim_analysis_task osv "w" 60 40 two_tasks ≡ ok (some leased, one_leased)
unfolding claim_analysis_task next_task sort_by find put
second_claimed = refl

dead_found : task_of "dead" two_tasks ≡ some (record failed_task { task_id = "dead" })
unfolding at_key
dead_found = refl

abbrev rejection : Rejection
rejection = record {
  document_sha256 = "hash";
  scan_id = some "scan";
  reason = "expired";
  payload = end;
}

abbrev after_other_calls : Repository
after_other_calls = (record_rejection 60 61 principal rejection "r" "other" one_leased).1

settled_task_kept_example :
    task_of "dead" after_other_calls ≡ some (record failed_task { task_id = "dead" })
settled_task_kept_example =
    settled_task_kept (λ a b. true) (λ s. none) lib finite (λ n. "now") "dead"
      (record failed_task { task_id = "dead" }) {s = two_tasks} {s' = after_other_calls}
      (refl, (refl, tt), (refl, tt, tt))
      (then_call (then_call no_call (task (claim osv "w" 60 40 second_claimed)))
        (reject 60 61 principal rejection "r" "other" refl))
      refl dead_found

-- Instants are written as text: "now" for 40 and "later" for 90.
abbrev read_instant : String → Option (Option ℕ)
read_instant s = if str_eq s "later" then some (some 90) else some (some 30)

abbrev job : Fields
job =
    field "authorization"
      (object (
        field "authorized" (bool true) (
          field "valid_from" (text "now") (
            field "expires_at" (text "later")
              (field "allowed_endpoint_ids" (list (cons (text "e") nil)) end)))))
      (field "deadline" (text "later") (field "timeout_seconds" (int 60) end))

abbrev queued_scan : ScanRecord
queued_scan = record {
  tenant_id = "t";
  endpoint_id = "e";
  scan_id = "scan";
  job_id = "job";
  state = "QUEUED";
  job_document = job;
  created_at = 25;
  updated_at = 25;
  upload = none;
  terminal_status = none;
  final_report = none;
}

abbrev with_scan : Repository
with_scan = record empty_repository { scans = ("scan", queued_scan) ∷ [] }

abbrev handed_scan : ScanRecord
handed_scan = record queued_scan { state = "DISPATCHED"; updated_at = 40 }

scan_handed : (claim_next_job read_instant principal 40 41 with_scan).0 ≡ ok (some handed_scan)
unfolding claim_next_job dispatch_first sort_by at_key job_dispatch_eligibility window_eligibility
    start_eligibility lease_eligibility dispatch_scan timestamp with_offset get lookup is_listed
scan_handed = refl

claim_next_job-IsHanded_example : IsHanded read_instant principal 40 handed_scan
claim_next_job-IsHanded_example =
    claim_next_job-IsHanded read_instant principal 40 41 with_scan scan_handed

abbrev outcome : Fields
outcome = field "status" (text "SUCCESS") end

abbrev analysed_scan : ScanRecord
analysed_scan = record queued_scan {
  state = "ANALYZING";
  upload = some (field "result" (object outcome) end);
}

abbrev with_evidence : Repository
with_evidence = record empty_repository { scans = ("scan", analysed_scan) ∷ [] }

abbrev with_status : Repository
with_status =
    (record_scan_status (λ a b. true) 50 51 principal "scan" outcome "s" "digest" with_evidence).1

-- The status is accepted and stored.
status_accepted :
    scan_at "scan" with_status
    ≡ some (record analysed_scan { terminal_status = some outcome; updated_at = 50 })
unfolding record_scan_status accept_scan_status owned_scan validate_scan_status agree_on replay_or
    after_checks remember audit put at_key get lookup same_json is_within
status_accepted = refl

evidence_found : scan_at "scan" with_evidence ≡ some analysed_scan
unfolding at_key
evidence_found = refl

abbrev with_rejection : Repository
with_rejection = (record_rejection 60 61 principal rejection "r" "other" with_status).1

scan_record_kept_example : Holds "scan" analysed_scan with_rejection
scan_record_kept_example =
    scan_record_kept (λ a b. true) read_instant lib finite (λ n. "now") "scan" analysed_scan
      {s = with_evidence} {s' = with_rejection} (refl, tt, tt)
      (then_call (then_call no_call (status 50 51 principal "scan" outcome "s" "digest" refl))
        (reject 60 61 principal rejection "r" "other" refl))
      evidence_found
