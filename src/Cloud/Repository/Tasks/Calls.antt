-- ===== src/Cloud/Repository/Tasks/Calls.antt =====
-- The calls on analysis tasks as steps on the table of tasks.
use os_scanner.Prelude.{
  max, sym, if◌then◌else◌, ℕ, ◌⊎◌, String, ◌≡◌, refl, Bool, true, false, not, ◌&&◌, Option, none,
  some, arith, str_eq, leb, ok, guard, value_error, >>=-eq-ok, Option-cases, inl, inr, subst,
}
use os_scanner.Prelude.Text.{is_empty, len}
use os_scanner.Json.{Fields}
use os_scanner.Cloud.Dict.{put}
use os_scanner.Cloud.Repository.{
  Repository, AnalysisTask, TaskKind, TaskState, succeeded, failed, retry,
}
use os_scanner.Cloud.Repository.Tasks.{
  lease_task, next_task, leased_task, claim_analysis_task, complete_analysis_task,
  fail_analysis_task, sanitize_error,
}
use os_scanner.Cloud.Filed.{put-IsFiled, at_key-own}
use os_scanner.Cloud.Repository.Tasks.Table.{id_of, IsFiled, next_task_filed}
use os_scanner.Cloud.Repository.Tasks.Leases.{task_of}

-- A committed call.
pub data TaskCall (s s' : Repository) : Type 0 where
  claim :
      (kind : TaskKind) (worker_id : String) (lease_seconds now : ℕ) {t : Option AnalysisTask}
      → claim_analysis_task kind worker_id lease_seconds now s ≡ ok (t, s')
      → TaskCall s s'
  complete :
      (task_id worker_id : String) (result : Fields) (now : ℕ)
      → complete_analysis_task task_id worker_id result now s ≡ ok s'
      → TaskCall s s'
  fail :
      (task_id worker_id error : String) (retry_at : ℕ) (dead_letter : Bool) (now : ℕ)
      → fail_analysis_task task_id worker_id error retry_at dead_letter now s ≡ ok s'
      → TaskCall s s'

abbrev pub is_settled : TaskState → Bool
is_settled succeeded = true
is_settled failed = true
is_settled _ = false

-- A call replaces at most one task, which was not settled, and files it under its id.
pub record Replaced (s s' : Repository) : Type 0 where
  pub old : AnalysisTask
  pub new : AnalysisTask
  pub found : task_of old.task_id s ≡ some old
  pub open_ : is_settled old.state ≡ false
  pub own : new.task_id ≡ old.task_id
  pub after : s'.tasks ≡ put str_eq old.task_id new s.tasks

claim-Replaced :
    (kind : TaskKind) (worker_id : String) (lease_seconds now : ℕ) (s : Repository)
    {t : Option AnalysisTask} {s' : Repository}
    → IsFiled s.tasks
    → claim_analysis_task kind worker_id lease_seconds now s ≡ ok (t, s')
    → (s'.tasks ≡ s.tasks) ⊎ Replaced s s'
unfolding claim_analysis_task
claim-Replaced kind worker_id lease_seconds now s {t} {s'} h e =
    let (_, _, e1) =
      >>=-eq-ok
        (guard
          (not (is_empty worker_id)
            && leb (len worker_id) 128
            && leb 10 lease_seconds
            && leb lease_seconds 3600)
          value_error)
        _ e in
    elim (Option-cases (next_task kind now s.tasks)) [
      | inl nothing ↦ inl (ground (arith, nothing, e1))
      | inr (u, found) ↦
          let (filed, claimable) = next_task_filed kind now s.tasks u h found in
          inr (record {
            old = u;
            new = lease_task worker_id lease_seconds now u;
            found = filed;
            open_ = ground (arith, claimable);
            own = refl;
            after = ground (arith, found, e1);
          })
    ]

complete-Replaced :
    (task_id worker_id : String) (result : Fields) (now : ℕ) (s : Repository) {s' : Repository}
    → IsFiled s.tasks
    → complete_analysis_task task_id worker_id result now s ≡ ok s'
    → Replaced s s'
unfolding complete_analysis_task leased_task
complete-Replaced task_id worker_id result now s {s'} h e =
    elim (Option-cases (task_of task_id s)) [
      | inl missing ↦ absurd (ground (arith, missing))
      | inr (t, found) ↦
          let own = at_key-own id_of task_id s.tasks t h found in
          record {
            old = t;
            new = record t {
              state = succeeded;
              result = some result;
              lease_expires_at = none;
              leased_by = none;
              updated_at = now;
            };
            found = ground (arith, own, found);
            open_ = ground (arith, found);
            own = refl;
            after = ground (arith, own, found);
          }
    ]

fail-Replaced :
    (task_id worker_id error : String) (retry_at : ℕ) (dead_letter : Bool) (now : ℕ)
    (s : Repository) {s' : Repository}
    → IsFiled s.tasks
    → fail_analysis_task task_id worker_id error retry_at dead_letter now s ≡ ok s'
    → Replaced s s'
unfolding fail_analysis_task leased_task
fail-Replaced task_id worker_id error retry_at dead_letter now s {s'} h e =
    elim (Option-cases (task_of task_id s)) [
      | inl missing ↦ absurd (ground (arith, missing))
      | inr (t, found) ↦
          let own = at_key-own id_of task_id s.tasks t h found in
          record {
            old = t;
            new = record t {
              state = if dead_letter then failed else retry;
              available_at = max now retry_at;
              lease_expires_at = none;
              leased_by = none;
              last_error = some (sanitize_error error);
              updated_at = now;
            };
            found = ground (arith, own, found);
            open_ = ground (arith, found);
            own = refl;
            after = ground (arith, own, found);
          }
    ]

pub TaskCall-Replaced :
    {s s' : Repository} → IsFiled s.tasks → TaskCall s s' → (s'.tasks ≡ s.tasks) ⊎ Replaced s s'
TaskCall-Replaced {s} h (claim kind worker_id lease_seconds now e) =
    claim-Replaced kind worker_id lease_seconds now s h e
TaskCall-Replaced {s} h (complete task_id worker_id result now e) =
    inr (complete-Replaced task_id worker_id result now s h e)
TaskCall-Replaced {s} h (fail task_id worker_id error retry_at dead_letter now e) =
    inr (fail-Replaced task_id worker_id error retry_at dead_letter now s h e)

Replaced-IsFiled : {s s' : Repository} → IsFiled s.tasks → Replaced s s' → IsFiled s'.tasks
Replaced-IsFiled {s} h r =
    subst IsFiled (sym r.after) (put-IsFiled id_of (r.old).task_id r.new s.tasks r.own h)

pub TaskCall-IsFiled : {s s' : Repository} → IsFiled s.tasks → TaskCall s s' → IsFiled s'.tasks
TaskCall-IsFiled h c = elim (TaskCall-Replaced h c) [
  | inl same ↦ subst IsFiled (sym same) h
  | inr r ↦ Replaced-IsFiled h r
]
