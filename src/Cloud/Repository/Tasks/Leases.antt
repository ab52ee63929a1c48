-- ===== src/Cloud/Repository/Tasks/Leases.antt =====
-- Leases of analysis tasks: what a claim hands out, and who may settle it.
use os_scanner.Prelude.{
  ℕ, ◌+◌, ◌*◌, ◌≤◌, ◌⊎◌, ◌||◌, none, false, refl, subst, sym, ap, ◌∙◌, String, ◌≡◌, true, not, ◌&&◌,
  Option, some, arith, str_eq, leb, ok, guard, value_error, >>=-eq-ok, Option-cases, inl, inr,
}
use os_scanner.Prelude.Text.{is_empty, len}
use os_scanner.Cloud.Dict.{at_key, put, at_key-put_same_text, at_key-put_other_text}
use os_scanner.Cloud.Repository.{
  Repository, AnalysisTask, TaskKind, TaskState, pending, running, retry, succeeded, failed, osv,
  depscan,
}
use os_scanner.Cloud.Repository.Tasks.{
  is_claimable, is_waiting, is_running, is_lapsed, same_kind, lease_task, next_task,
  claim_analysis_task,
}
use os_scanner.Cloud.Repository.Tasks.Table.{IsFiled, next_task_filed}

abbrev pub task_of : String → Repository → Option AnalysisTask
task_of id s = at_key str_eq id s.tasks

-- The task may be handed out: it waits for a worker, or runs under a lease that has lapsed; it is of the
-- kind asked for, and available.
abbrev pub IsFree : TaskKind → ℕ → AnalysisTask → Type 0
IsFree kind now t =
    ((t.state ≡ pending)
      ⊎ ((t.state ≡ retry)
          ⊎ ((t.state ≡ running)
              × ((until : ℕ) × (t.lease_expires_at ≡ some until) × (until ≤ now)))))
    × (t.kind ≡ kind)
    × (t.available_at ≤ now)

-- The task runs under a new lease of the worker, with one attempt more, and is the same otherwise.
pub record IsLeased (worker_id : String) (lease_seconds now : ℕ) (t claimed : AnalysisTask)
    : Type 0 where
  pub runs : claimed.state ≡ running
  pub worker : claimed.leased_by ≡ some worker_id
  pub until : claimed.lease_expires_at ≡ some (now + lease_seconds * 1_000_000)
  pub counted : claimed.attempts ≡ t.attempts + 1
  pub same_task : (claimed.task_id ≡ t.task_id) × (claimed.scan_id ≡ t.scan_id)
  pub same_owner : (claimed.tenant_id ≡ t.tenant_id) × (claimed.endpoint_id ≡ t.endpoint_id)
  pub same_work : (claimed.kind ≡ t.kind) × (claimed.payload ≡ t.payload)

is_claimable-IsFree :
    (kind : TaskKind) (now : ℕ) (t : AnalysisTask)
    → is_claimable kind now t ≡ true
    → IsFree kind now t
is_claimable-IsFree kind now t h = (
  free t.state t.lease_expires_at (ground (arith, h)),
  same t.kind kind (ground (arith, h)),
  ground (arith, h),
)
  where
    free :
        (state : TaskState) (lease : Option ℕ)
        → (is_waiting state || (is_running state && is_lapsed lease now)) ≡ true
        → (state ≡ pending)
          ⊎ ((state ≡ retry)
              ⊎ ((state ≡ running) × ((until : ℕ) × (lease ≡ some until) × (until ≤ now))))
    free pending lease h = inl refl
    free retry lease h = inr (inl refl)
    free running none h = absurd (cc)
    free running (some until) h = inr (inr (refl, (until, refl, ground (arith, h))))
    free succeeded lease h = absurd (cc)
    free failed lease h = absurd (cc)

    same : (a b : TaskKind) → same_kind a b ≡ true → a ≡ b
    same osv osv h = refl
    same depscan depscan h = refl
    same osv depscan h = absurd (cc)
    same depscan osv h = absurd (cc)

-- A claim that hands out a task, in a table that files each task once: the table held the task free to
-- be handed out; the task returned runs under a lease of this worker, which ends after the seconds asked
-- for, with one attempt more; the table now holds it, and every other task as before.
pub claim_analysis_task-leases :
    (kind : TaskKind) (worker_id : String) (lease_seconds now : ℕ) (s : Repository)
    {claimed : AnalysisTask} {s' : Repository}
    → IsFiled s.tasks
    → claim_analysis_task kind worker_id lease_seconds now s ≡ ok (some claimed, s')
    → ((t : AnalysisTask) × (task_of claimed.task_id s ≡ some t)
        × IsFree kind now t
        × IsLeased worker_id lease_seconds now t claimed
        × (task_of claimed.task_id s' ≡ some claimed))
      × ((id : String) → str_eq claimed.task_id id ≡ false → task_of id s' ≡ task_of id s)
unfolding claim_analysis_task
claim_analysis_task-leases kind worker_id lease_seconds now s {claimed} {s'} h e =
    let (_, _, e1) =
      >>=-eq-ok
        (guard
          (not (is_empty worker_id)
            && leb (len worker_id) 128
            && leb 10 lease_seconds
            && leb lease_seconds 3600)
          value_error)
        _ e in
    elim (Option-cases (next_task kind now s.tasks)) [
      | inl nothing ↦ absurd (ground (arith, nothing, e1))
      | inr (t, found) ↦
          let (filed, claimable) = next_task_filed kind now s.tasks t h found in
          let leased = lease_task worker_id lease_seconds now t in
          let same : leased ≡ claimed = ground (arith, found, e1) in
          let after : put str_eq t.task_id leased s.tasks ≡ s'.tasks = ground (arith, found, e1) in
          (
            (
              t,
              ground (arith, same, filed),
              is_claimable-IsFree kind now t claimable,
              subst (IsLeased worker_id lease_seconds now t) same (record {
                runs = refl;
                worker = refl;
                until = refl;
                counted = refl;
                same_task = (refl, refl);
                same_owner = (refl, refl);
                same_work = (refl, refl);
              }),
              ground (arith, found, e1, at_key-put_same_text t.task_id leased s.tasks),
            ),
            λ id differ.
                ap (at_key str_eq id) (sym after)
                ∙ at_key-put_other_text t.task_id id leased s.tasks (ground (arith, same, differ)),
          )
    ]
