-- ===== src/Cloud/Repository/Tasks/Settled.antt =====
-- What calls on tasks leave of the settled ones, and whose call settles a task.
use os_scanner.Prelude.{
  is_text, if◌then◌else◌, max, Option, Bool, ◌≤◌, Option-cases, >>=-eq-ok, ok-injective, sym, ap,
  ◌∙◌, ℕ, String, ◌≡◌, refl, true, false, none, some, arith, str_eq, eq_iff, ok, Bool-cases, inl,
  inr,
}
use os_scanner.Json.{Fields}
use os_scanner.Cloud.Dict.{at_key, put, at_key-put_same_text, at_key-put_other_text}
use os_scanner.Cloud.Repository.{
  Repository, AnalysisTask, TaskState, pending, running, retry, succeeded, failed,
}
use os_scanner.Cloud.Repository.Tasks.{
  Tasks, is_running, leased_task, complete_analysis_task, fail_analysis_task,
}
use os_scanner.Cloud.Repository.Tasks.Table.{IsFiled}
use os_scanner.Cloud.Repository.Tasks.Leases.{task_of}
use os_scanner.Cloud.Repository.Tasks.Calls.{TaskCall, Replaced, is_settled, TaskCall-Replaced}

Replaced-keeps :
    (id : String) (t : AnalysisTask) {s s' : Repository}
    → Replaced s s'
    → is_settled t.state ≡ true
    → task_of id s ≡ some t
    → task_of id s' ≡ some t
Replaced-keeps id t {s} {s'} r settled found = elim (Bool-cases (str_eq (r.old).task_id id)) [
  | inl same ↦
      let this : id ≡ (r.old).task_id = sym ((eq_iff (r.old).task_id id).0 same) in
      absurd (ground (arith, r.found, r.open_, settled, found, this))
  | inr differ ↦
      ap (at_key str_eq id) r.after
      ∙ at_key-put_other_text (r.old).task_id id r.new s.tasks differ
      ∙ found
]

pub TaskCall-keeps :
    (id : String) (t : AnalysisTask) {s s' : Repository}
    → IsFiled s.tasks
    → TaskCall s s'
    → is_settled t.state ≡ true
    → task_of id s ≡ some t
    → task_of id s' ≡ some t
TaskCall-keeps id t h c settled found = elim (TaskCall-Replaced h c) [
  | inl same ↦ ap (at_key str_eq id) same ∙ found
  | inr r ↦ Replaced-keeps id t r settled found
]

-- A call that ends a lease and returns: a completion with a result, or a failure report.
pub data Settlement (id worker : String) (s s' : Repository) : Type 0 where
  completed :
      (result : Fields) (now : ℕ)
      → complete_analysis_task id worker result now s ≡ ok s'
      → Settlement id worker s s'
  given_up :
      (error : String) (retry_at : ℕ) (dead_letter : Bool) (now : ℕ)
      → fail_analysis_task id worker error retry_at dead_letter now s ≡ ok s'
      → Settlement id worker s s'

-- What the call makes of the task: the result is stored, or the task is given up or waits for its time.
abbrev pub Ends :
    {id worker : String} {s s' : Repository} → Settlement id worker s s' → AnalysisTask → Type 0
Ends (completed result now e) t = (t.state ≡ succeeded) × (t.result ≡ some result)
Ends (given_up error retry_at true now e) t = t.state ≡ failed
Ends (given_up error retry_at false now e) t =
    (t.state ≡ retry) × (now ≤ t.available_at) × (retry_at ≤ t.available_at)

-- The task ran under the worker's lease; afterwards it has none, and every other task is as before.
pub record IsSettled {id worker : String} {s s' : Repository} (c : Settlement id worker s s')
    : Type 0 where
  pub task : AnalysisTask
  pub found : task_of id s ≡ some task
  pub ran : task.state ≡ running
  pub held : task.leased_by ≡ some worker
  pub after : AnalysisTask
  pub stored : task_of id s' ≡ some after
  pub ended : Ends c after
  pub free : (after.leased_by ≡ none) × (after.lease_expires_at ≡ none)
  pub others : (other : String) → str_eq id other ≡ false → task_of other s' ≡ task_of other s

is_text-eq : (a : String) (o : Option String) → is_text a o ≡ true → o ≡ some a
is_text-eq a none h = ground arith
is_text-eq a (some b) h = ground (arith, eq_iff b a)

is_running-eq : (state : TaskState) → is_running state ≡ true → state ≡ running
is_running-eq running h = refl
is_running-eq pending h = absurd (cc)
is_running-eq retry h = absurd (cc)
is_running-eq succeeded h = absurd (cc)
is_running-eq failed h = absurd (cc)

-- The task that a lookup under a lease gives.
leased_task-held :
    (id worker : String) (tasks : Tasks) {t : AnalysisTask}
    → leased_task id worker tasks ≡ ok t
    → (at_key str_eq id tasks ≡ some t) × (t.state ≡ running) × (t.leased_by ≡ some worker)
unfolding leased_task
leased_task-held id worker tasks {t} e = elim (Option-cases (at_key str_eq id tasks)) [
  | inl missing ↦ absurd (ground (arith, missing, e))
  | inr (u, found) ↦
      let same : u ≡ t = ground (arith, found, e) in
      (
        found ∙ ap some same,
        is_running-eq t.state (ground (arith, found, e)),
        is_text-eq worker t.leased_by (ground (arith, found, e)),
      )
]

-- A call that stores a task without a lease in place of the one that a worker held.
stored-IsSettled :
    (id worker : String) {s s' : Repository} (c : Settlement id worker s s')
    (t after : AnalysisTask)
    → leased_task id worker s.tasks ≡ ok t
    → s'.tasks ≡ put str_eq id after s.tasks
    → (after.leased_by ≡ none) × (after.lease_expires_at ≡ none)
    → Ends c after
    → IsSettled c
stored-IsSettled id worker {s} {s'} c t after leased e free ended =
    let (found, ran, held) = leased_task-held id worker s.tasks leased in
    record {
      task = t;
      found = found;
      ran = ran;
      held = held;
      after = after;
      stored = ap (at_key str_eq id) e ∙ at_key-put_same_text id after s.tasks;
      ended = ended;
      free = free;
      others = λ other differ.
          ap (at_key str_eq other) e ∙ at_key-put_other_text id other after s.tasks differ;
    }

given_up-Ends :
    (id worker error : String) (retry_at : ℕ) (dead_letter : Bool) (now : ℕ) (s s' : Repository)
    (e : fail_analysis_task id worker error retry_at dead_letter now s ≡ ok s') (t : AnalysisTask)
    → t.state ≡ (if dead_letter then failed else retry)
    → t.available_at ≡ max now retry_at
    → Ends (given_up error retry_at dead_letter now e) t
given_up-Ends id worker error retry_at true now s s' e t state at = state
given_up-Ends id worker error retry_at false now s s' e t state at =
    (state, omega (arith, at), omega (arith, at))

-- A completion or a failure report that returns was the lease holder's: the task ran under that
-- worker's lease. Then the task has succeeded with the result, has failed for good, or waits until the
-- time given and not before now; it has no lease, and every other task is as before.
pub Settlement-IsSettled :
    (id worker : String) {s s' : Repository} (c : Settlement id worker s s') → IsSettled c
unfolding complete_analysis_task fail_analysis_task
Settlement-IsSettled id worker {s} {s'} (completed result now e) =
    let (t, leased, e1) = >>=-eq-ok (leased_task id worker s.tasks) _ e in
    stored-IsSettled id worker (completed result now e) t _ leased
      (ap (λ x. x.tasks) (sym (ok-injective e1))) (refl, refl) (refl, refl)
Settlement-IsSettled id worker {s} {s'} (given_up error retry_at dead_letter now e) =
    let (t, leased, e1) = >>=-eq-ok (leased_task id worker s.tasks) _ e in
    stored-IsSettled id worker (given_up error retry_at dead_letter now e) t _ leased
      (ap (λ x. x.tasks) (sym (ok-injective e1))) (refl, refl)
      (given_up-Ends id worker error retry_at dead_letter now s s' e _ refl refl)
