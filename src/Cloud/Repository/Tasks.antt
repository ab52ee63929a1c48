-- ===== src/Cloud/Repository/Tasks.antt =====
-- InMemoryRepository: claim_analysis_task, complete_analysis_task and fail_analysis_task, and
-- _sanitize_error.
pub mod Table
pub mod Leases
pub mod Calls
pub mod Settled
use os_scanner.Prelude.{
  ℕ, suc, ◌+◌, ◌*◌, ◌≤◌, ◌<◌, max, String, ◌≡◌, ◌≢◌, refl, Bool, true, false, not, ◌&&◌, ◌||◌,
  Option, none, some, List, [], ◌∷◌, arith, leb, ltb, str_eq, str_eq_refl, eq_iff, is_text,
  if◌then◌else◌, find, find-All, sort_by, All, All-sort_by, map, Result, ok, err, guard, or_raise,
  ◌>>=◌, ◌>>◌, >>=-eq-ok, Option-cases, inl, inr, value_error, not_found, state_conflict, subst,
}
use os_scanner.Prelude.Text.{is_empty, len, slice_to, blank_controls}
use os_scanner.Json.{Fields}
use os_scanner.Cloud.Dict.{at_key, put, at_key-put_same_text, at_key-put_other_text}
use os_scanner.Cloud.Repository.{
  Repository, AnalysisTask, TaskKind, TaskState, osv, depscan, pending, running, succeeded, retry,
  failed,
}

-- The entries of the table of tasks.
abbrev pub Tasks : Type 0
Tasks = List (String × AnalysisTask)

abbrev pub same_kind : TaskKind → TaskKind → Bool
same_kind osv osv = true
same_kind depscan depscan = true
same_kind _ _ = false

abbrev pub is_running : TaskState → Bool
is_running running = true
is_running _ = false

abbrev pub is_waiting : TaskState → Bool
is_waiting pending = true
is_waiting retry = true
is_waiting _ = false

abbrev pub is_lapsed : Option ℕ → ℕ → Bool
is_lapsed none now = false
is_lapsed (some t) now = leb t now

-- What the loop of the claim asks of a task.
abbrev pub is_claimable : TaskKind → ℕ → AnalysisTask → Bool
is_claimable kind now t =
    same_kind t.kind kind
    && (is_waiting t.state || (is_running t.state && is_lapsed t.lease_expires_at now))
    && leb t.available_at now

abbrev pub lease_task : String → ℕ → ℕ → AnalysisTask → AnalysisTask
lease_task worker_id lease_seconds now t = record t {
  state = running;
  attempts = t.attempts + 1;
  leased_by = some worker_id;
  lease_expires_at = some (now + lease_seconds * 1_000_000);
  updated_at = now;
}

abbrev pub second_of : String × AnalysisTask → AnalysisTask
second_of item = item.1

unfoldable pub next_task : TaskKind → ℕ → Tasks → Option AnalysisTask
unfolding find sort_by
next_task kind now tasks =
    find (is_claimable kind now) (sort_by (λ t. t.created_at) (map second_of tasks))

unfoldable pub claim_analysis_task :
    TaskKind → String → ℕ → ℕ → Repository → Result (Option AnalysisTask × Repository)
unfolding next_task put
claim_analysis_task kind worker_id lease_seconds now s = do
  guard
      (not (is_empty worker_id)
        && leb (len worker_id) 128
        && leb 10 lease_seconds
        && leb lease_seconds 3600)
      value_error
  elim (next_task kind now s.tasks) [
    | none ↦ ok (none, s)
    | some t ↦
        let claimed = lease_task worker_id lease_seconds now t in
        ok (some claimed, record s { tasks = put str_eq t.task_id claimed s.tasks })
  ]

-- The task, if it runs under the worker's lease.
unfoldable pub leased_task : String → String → Tasks → Result AnalysisTask
unfolding at_key
leased_task task_id worker_id tasks = do
  t ← or_raise (at_key str_eq task_id tasks) not_found
  guard (is_running t.state && is_text worker_id t.leased_by) state_conflict
  ok t

unfoldable pub complete_analysis_task :
    String → String → Fields → ℕ → Repository → Result Repository
unfolding leased_task put
complete_analysis_task task_id worker_id result now s = do
  t ← leased_task task_id worker_id s.tasks
  let finished : AnalysisTask = record t {
    state = succeeded;
    result = some result;
    lease_expires_at = none;
    leased_by = none;
    updated_at = now;
  } in
      ok (record s { tasks = put str_eq task_id finished s.tasks })

-- _sanitize_error
unfoldable pub sanitize_error : String → String
sanitize_error value =
    let cleaned = slice_to 512 (blank_controls value) in
    if is_empty cleaned then "worker failure" else cleaned

unfoldable pub fail_analysis_task :
    String → String → String → ℕ → Bool → ℕ → Repository → Result Repository
unfolding leased_task put sanitize_error
fail_analysis_task task_id worker_id error retry_at dead_letter now s = do
  t ← leased_task task_id worker_id s.tasks
  let ended : AnalysisTask = record t {
    state = if dead_letter then failed else retry;
    available_at = max now retry_at;
    lease_expires_at = none;
    leased_by = none;
    last_error = some (sanitize_error error);
    updated_at = now;
  } in
      ok (record s { tasks = put str_eq task_id ended s.tasks })
