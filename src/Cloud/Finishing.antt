-- ===== src/Cloud/Finishing.antt =====
-- A scan whose analysis tasks have ended, and its report.
use os_scanner.Prelude.{String, ◌≡◌, refl, ◌⊎◌, true, false, some, [], ◌∷◌, All, ok}
use os_scanner.Json.{text, Fields, end, field}
use os_scanner.Cloud.Dict.{at_key, put}
use os_scanner.Cloud.Repository.{
  ScanRecord, AnalysisTask, depscan, succeeded, running, failed, Repository,
}
use os_scanner.Cloud.Repository.Scans.{finalize_scan_report}
use os_scanner.Cloud.Repository.Reads.{is_ready, scan_records, next_scan_ready_for_finalization}
use os_scanner.Cloud.Repository.Tasks.{fail_analysis_task, leased_task, sanitize_error}
use os_scanner.Cloud.Repository.Tasks.Calls.{fail}
use os_scanner.Cloud.Service.History.{ServiceCall, no_call, then_call}
use os_scanner.Cloud.Service.Finalization.{IsComplete, finalize_scan_report-progress}
use os_scanner.Cloud.Evidence.{dispatched, task, tables, fromisoformat}
use os_scanner.Cloud.Exchange.{same_number, lib, finite}

abbrev analysed : ScanRecord
analysed = record dispatched { state = "ANALYZING" }

abbrev vulnerabilities : AnalysisTask
vulnerabilities = record task { state = succeeded }

abbrev running_task : AnalysisTask
running_task = record task {
  task_id = "s2:depscan";
  kind = depscan;
  state = running;
  leased_by = some "w";
  lease_expires_at = some 90;
}

abbrev dead_task : AnalysisTask
dead_task = record task {
  task_id = "s2:depscan";
  kind = depscan;
  state = failed;
  available_at = 70;
  updated_at = 60;
  last_error = some "crash";
}

abbrev unfinished : Repository
unfinished = record tables {
  scans = ("s2", analysed) ∷ [];
  tasks = ("s2:osv", vulnerabilities) ∷ ("s2:depscan", running_task) ∷ [];
}

abbrev ended : Repository
ended = record unfinished { tasks = ("s2:osv", vulnerabilities) ∷ ("s2:depscan", dead_task) ∷ [] }

task_ended : fail_analysis_task "s2:depscan" "w" "crash" 70 true 60 unfinished ≡ ok ended
unfolding fail_analysis_task leased_task at_key put sanitize_error
    os_scanner.Prelude.Text.blank_controls
task_ended = refl

abbrev report : Fields
report = field "status" (text "PARTIAL") end

s2_next : next_scan_ready_for_finalization ended ≡ some "s2"
unfolding next_scan_ready_for_finalization
s2_next = refl

finalize_scan_report-progress_example :
    All (λ (r : ScanRecord). is_ready ended.tasks r ≡ false) (scan_records ended)
    ⊎ ((scan_id : String) × (next_scan_ready_for_finalization ended ≡ some scan_id)
        × (s' : Repository) × (finalize_scan_report same_number 7 8 scan_id report ended ≡ ok s')
        × IsComplete scan_id report s')
finalize_scan_report-progress_example =
    finalize_scan_report-progress same_number fromisoformat lib finite (λ n. "now") unfinished ended
      7 8 report (refl, tt, tt)
      (then_call no_call (ServiceCall.task (fail "s2:depscan" "w" "crash" 70 true 60 task_ended)))
