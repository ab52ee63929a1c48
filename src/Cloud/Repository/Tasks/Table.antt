-- ===== src/Cloud/Repository/Tasks/Table.antt =====
-- The table of analysis tasks: each task is filed once, under its own id.
use os_scanner.Prelude.{ℕ, String, ◌≡◌, true, some, str_eq, find-All, sort_by, All-sort_by, map}
use os_scanner.Cloud.Dict.{at_key}
use os_scanner.Cloud.Filed
use os_scanner.Cloud.Filed.{IsFiled-values}
use os_scanner.Cloud.Repository.{AnalysisTask, TaskKind}
use os_scanner.Cloud.Repository.Tasks.{Tasks, is_claimable, next_task, second_of}

abbrev pub id_of : AnalysisTask → String
id_of t = t.task_id

abbrev pub IsFiled : Tasks → Type 0
IsFiled tasks = Filed.IsFiled id_of tasks

-- The task that the loop stops at is filed in the table, and may be claimed.
pub next_task_filed :
    (kind : TaskKind) (now : ℕ) (tasks : Tasks) (t : AnalysisTask)
    → IsFiled tasks
    → next_task kind now tasks ≡ some t
    → (at_key str_eq t.task_id tasks ≡ some t) × (is_claimable kind now t ≡ true)
unfolding next_task
next_task_filed kind now tasks t h e =
    find-All (λ u. at_key str_eq u.task_id tasks ≡ some u) (is_claimable kind now)
      (sort_by (λ u. u.created_at) (map second_of tasks)) t
      (All-sort_by (λ u. at_key str_eq u.task_id tasks ≡ some u) (λ u. u.created_at)
        (map second_of tasks) (IsFiled-values id_of tasks h))
      e
