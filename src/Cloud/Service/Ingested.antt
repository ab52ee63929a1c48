-- ===== src/Cloud/Service/Ingested.antt =====
-- What the ingestion of evidence does to the tables of grants and tasks.
use os_scanner.Prelude.{
  ℕ, String, ◌≡◌, Bool, Option, none, List, [], ◌∷◌, arith, str_eq, ok, Option-cases, Result-cases,
  Bool-cases, inl, inr, subst, All, ◌∙◌, refl, false, guarded, ◌&&◌, is_none, state_conflict,
}
use os_scanner.Json.{Json, Fields}
use os_scanner.Storage.Runtime.{Runtime}
use os_scanner.Cloud.Dict.{at_key, put, at_key-put_other_text}
use os_scanner.Cloud.Filed.{put-IsFiled}
use os_scanner.Cloud.Repository.{
  Answer, AnalysisTask, DevicePrincipal, Repository, ReplayKey, replay_or, remember, audit,
  after_checks, same_replay_key,
}
use os_scanner.Cloud.Repository.Tasks.{Tasks}
use os_scanner.Cloud.Repository.Tasks.Table.{IsFiled, id_of}
use os_scanner.Cloud.Repository.Ingestion.{
  check_tasks, put_tasks, check_upload, store_upload, ingest_new, ingest_scan, ingest_key,
}
use os_scanner.Cloud.Repository.Ingestion.States.{check_upload-reconstruction}

-- A table holds no task with the id.
abbrev pub IsNew : Tasks → AnalysisTask → Type 0
IsNew known t = at_key str_eq t.task_id known ≡ none

module _ (same_number : Json → Json → Bool) (fromisoformat : String → Option (Option ℕ)) where
  -- A step that changes no grant, and that changes the tasks, if at all, by filing new ones.
  pub data IsIngesting (s s' : Repository) : Type 0 where
    kept : s'.enrollment_grants ≡ s.enrollment_grants → s'.tasks ≡ s.tasks → IsIngesting s s'
    stored :
        (tasks : List AnalysisTask)
        → All (IsNew s.tasks) tasks
        → s'.enrollment_grants ≡ s.enrollment_grants
        → s'.tasks ≡ put_tasks same_number fromisoformat tasks s.tasks
        → IsIngesting s s'

  pub IsIngesting-grants :
      {s s' : Repository} → IsIngesting s s' → s'.enrollment_grants ≡ s.enrollment_grants
  IsIngesting-grants (kept grants tasks) = grants
  IsIngesting-grants (stored tasks new grants e) = grants

  check_tasks-All :
      (p : DevicePrincipal) (scan_id : String) (tasks : List AnalysisTask) (known : Tasks)
      → check_tasks same_number fromisoformat p scan_id tasks known ≡ ok tt
      → All (IsNew known) tasks
  unfolding check_tasks
  check_tasks-All p scan_id [] known e = tt
  check_tasks-All p scan_id (t ∷ rest) known e =
      let (_, e1) =
        guarded
          (str_eq t.scan_id scan_id
            && str_eq t.tenant_id p.tenant_id
            && str_eq t.endpoint_id p.endpoint_id)
          state_conflict _ e in
      let (fresh, e2) = guarded (is_none (at_key str_eq t.task_id known)) state_conflict _ e1 in
      (
        elim (Option-cases (at_key str_eq t.task_id known)) [
          | inl missing ↦ missing
          | inr (u, found) ↦ absurd (ground (arith, found, fresh))
        ],
        check_tasks-All p scan_id rest known e2,
      )

  pub put_tasks-IsFiled :
      (tasks : List AnalysisTask) (known : Tasks)
      → IsFiled known
      → IsFiled (put_tasks same_number fromisoformat tasks known)
  unfolding put_tasks
  put_tasks-IsFiled [] known h = h
  put_tasks-IsFiled (t ∷ rest) known h =
      put_tasks-IsFiled rest (put str_eq t.task_id t known)
        (put-IsFiled id_of t.task_id t known refl h)

  -- A task whose id is not among those filed is found as before.
  pub put_tasks-other :
      (id : String) (tasks : List AnalysisTask) (known : Tasks)
      → All (λ t. str_eq t.task_id id ≡ false) tasks
      → at_key str_eq id (put_tasks same_number fromisoformat tasks known) ≡ at_key str_eq id known
  unfolding put_tasks
  put_tasks-other id [] known h = refl
  put_tasks-other id (t ∷ rest) known h =
      put_tasks-other id rest (put str_eq t.task_id t known) h.1
      ∙ at_key-put_other_text t.task_id id t known h.0

  module _ (lib : Runtime) (finite : String → Bool) where
    ingest_new-IsIngesting :
        (now at : ℕ) (p : DevicePrincipal) (scan_id : String) (upload : Fields)
        (tasks : List AnalysisTask) (replay : ReplayKey) (digest : String) (s : Repository)
        → IsIngesting s
            (ingest_new same_number fromisoformat lib finite now at p scan_id upload tasks replay
              digest s).1
    unfolding ingest_new after_checks store_upload remember audit
    ingest_new-IsIngesting now at p scan_id upload tasks replay digest s =
        elim (Result-cases
          (check_upload same_number fromisoformat lib finite now p scan_id upload tasks s)) [
            | inr (error, refused) ↦ kept (ground (arith, refused)) (ground (arith, refused))
            | inl (a, passed) ↦
                let (_, _, _, known) =
                  check_upload-reconstruction same_number fromisoformat lib finite now p scan_id
                    upload tasks s passed in
                stored tasks (check_tasks-All p scan_id tasks s.tasks known)
                  (ground (arith, passed)) (ground (arith, passed))
          ]

    -- One call of ingest_scan, with the tables that it leaves.
    pub data Ingestion (s s' : Repository) : Type 0 where
      ingestion :
          (now at : ℕ) (p : DevicePrincipal) (scan_id : String) (upload : Fields)
          (tasks : List AnalysisTask) (key digest : String)
          → (ingest_scan same_number fromisoformat lib finite now at p scan_id upload tasks key
              digest s).1
            ≡ s'
          → Ingestion s s'

    replay_or-IsIngesting :
        (key : ReplayKey) (digest : String) (body : Repository → Answer) (s : Repository)
        → IsIngesting s (body s).1
        → IsIngesting s (replay_or key digest body s).1
    unfolding replay_or
    replay_or-IsIngesting key digest body s c =
        elim (Option-cases (at_key same_replay_key key s.idempotency)) [
          | inl fresh ↦ rw (fresh, replay_or) c
          | inr (known, remembered) ↦ elim (Bool-cases (str_eq known.0 digest)) [
            | inl same ↦ rw (remembered, replay_or, same) (kept refl refl)
            | inr other ↦ rw (remembered, replay_or, other) (kept refl refl)
          ]
        ]

    pub Ingestion-IsIngesting : {s s' : Repository} → Ingestion s s' → IsIngesting s s'
    unfolding ingest_scan
    Ingestion-IsIngesting {s} (ingestion now at p scan_id upload tasks key digest e) =
        let replay : ReplayKey = ingest_key same_number fromisoformat lib finite p scan_id key in
        subst (IsIngesting s) e (
          replay_or-IsIngesting replay digest
            (ingest_new same_number fromisoformat lib finite now at p scan_id upload tasks replay
              digest)
            s (ingest_new-IsIngesting now at p scan_id upload tasks replay digest s))
