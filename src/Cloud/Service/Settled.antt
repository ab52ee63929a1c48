-- ===== src/Cloud/Service/Settled.antt =====
-- Settled analysis tasks over histories of calls.
use os_scanner.Prelude.{
  ℕ, String, ◌≡◌, sym, ◌∙◌, ap, Bool, true, false, Option, some, inl, inr, str_eq, subst, All-imp,
  arith, eq_iff, Bool-cases,
}
use os_scanner.Json.{Json}
use os_scanner.Storage.Runtime.{Runtime}
use os_scanner.Cloud.Dict.{at_key}
use os_scanner.Cloud.Repository.{AnalysisTask, Repository}
use os_scanner.Cloud.Repository.Tasks.Table.{IsFiled}
use os_scanner.Cloud.Repository.Tasks.Leases.{task_of}
use os_scanner.Cloud.Repository.Tasks.Calls.{is_settled, TaskCall-IsFiled}
use os_scanner.Cloud.Repository.Tasks.Settled.{TaskCall-keeps}
use os_scanner.Cloud.Service.Untouched.{EnrollmentCall-IsEnrolling}
use os_scanner.Cloud.Service.Ingested.{
  IsNew, IsIngesting, kept, stored, Ingestion-IsIngesting, put_tasks-IsFiled, put_tasks-other,
}
use os_scanner.Cloud.Service.Cases.{ServiceCall-cases}
use os_scanner.Cloud.Service.History.{ServiceCall, ServiceCalls, no_call, then_call}

-- A step after which the tasks are filed, and the given one is as before.
abbrev KeepsTask : String → AnalysisTask → Repository → Type 0
KeepsTask id t s = IsFiled s.tasks × (task_of id s ≡ some t)

same_task :
    (id : String) (t : AnalysisTask) (s s' : Repository)
    → s'.tasks ≡ s.tasks
    → KeepsTask id t s
    → KeepsTask id t s'
same_task id t s s' same (filed, found) =
    (subst IsFiled (sym same) filed, ap (at_key str_eq id) same ∙ found)

IsNew-other :
    (id : String) (t : AnalysisTask) (s : Repository) (u : AnalysisTask)
    → task_of id s ≡ some t
    → IsNew s.tasks u
    → str_eq u.task_id id ≡ false
IsNew-other id t s u found new = elim (Bool-cases (str_eq u.task_id id)) [
  | inl same ↦
      let this : u.task_id ≡ id = (eq_iff u.task_id id).0 same in
      absurd (ground (arith, found, new, this))
  | inr differ ↦ differ
]

module _ (same_number : Json → Json → Bool) (fromisoformat : String → Option (Option ℕ))
    (lib : Runtime) (finite : String → Bool) (isoformat : ℕ → String) where
  IsIngesting-KeepsTask :
      (id : String) (t : AnalysisTask) (s s' : Repository)
      → IsIngesting same_number fromisoformat s s'
      → KeepsTask id t s
      → KeepsTask id t s'
  IsIngesting-KeepsTask id t s s' (kept grants same) h = same_task id t s s' same h
  IsIngesting-KeepsTask id t s s' (stored tasks new grants e) (filed, found) = (
    subst IsFiled (sym e) (put_tasks-IsFiled same_number fromisoformat tasks s.tasks filed),
    ap (at_key str_eq id) e
        ∙ put_tasks-other same_number fromisoformat id tasks s.tasks (
            All-imp (IsNew s.tasks) (λ u. str_eq u.task_id id ≡ false) tasks
              (λ u fresh. IsNew-other id t s u found fresh) new)
        ∙ found,
  )

  ServiceCall-KeepsTask :
      (id : String) (t : AnalysisTask) {s s' : Repository}
      → is_settled t.state ≡ true
      → ServiceCall same_number fromisoformat lib finite isoformat s s'
      → KeepsTask id t s
      → KeepsTask id t s'
  ServiceCall-KeepsTask id t {s} {s'} settled c h =
      elim (ServiceCall-cases same_number fromisoformat lib finite isoformat c) [
        | inl c1 ↦ same_task id t s s' (ap (λ x. x.2) (EnrollmentCall-IsEnrolling isoformat c1)) h
        | inr (inl c1) ↦ (TaskCall-IsFiled h.0 c1, TaskCall-keeps id t h.0 c1 settled h.1)
        | inr (inr (inl c1)) ↦
            IsIngesting-KeepsTask id t s s'
              (Ingestion-IsIngesting same_number fromisoformat lib finite c1) h
        | inr (inr (inr same)) ↦ same_task id t s s' (ap (λ x. x.2) same) h
      ]

  settled-KeepsTask :
      (id : String) (t : AnalysisTask) {s s' : Repository}
      → is_settled t.state ≡ true
      → ServiceCalls same_number fromisoformat lib finite isoformat s s'
      → KeepsTask id t s
      → KeepsTask id t s'
  settled-KeepsTask id t settled no_call h = h
  settled-KeepsTask id t settled (then_call before c) h =
      ServiceCall-KeepsTask id t settled c (settled-KeepsTask id t settled before h)

  -- A task that has succeeded or failed for good keeps its record, and so its result, through every later
  -- call on the service, whether it answers or raises. The table files each task once, under its id, when
  -- the calls begin.
  pub settled_task_kept :
      (id : String) (t : AnalysisTask) {s s' : Repository}
      → IsFiled s.tasks
      → ServiceCalls same_number fromisoformat lib finite isoformat s s'
      → is_settled t.state ≡ true
      → task_of id s ≡ some t
      → task_of id s' ≡ some t
  settled_task_kept id t filed calls settled found =
      (settled-KeepsTask id t settled calls (filed, found)).1
