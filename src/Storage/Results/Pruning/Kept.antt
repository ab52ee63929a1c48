-- ===== src/Storage/Results/Pruning/Kept.antt =====
-- The conditions under which prune_completed_scan_records removes a scan.
use os_scanner.Prelude.{◌⊎◌, String, ◌≡◌, true, false, Option, none, some, List, All}
use os_scanner.Storage.Scans.{Job, Tables, find_job}
use os_scanner.Storage.Results.Pruning.{Archive, listed, is_done, is_baseline, is_blocked}

-- Each job is found under its identifier, the primary key.
abbrev pub JobsAreKeyed : Tables → Type 0
JobsAreKeyed t = All (λ (j : Job). find_job j.scan_id t ≡ some j) t.jobs

-- Some job of the tables has the identifier and is finished.
abbrev IsFinished : Tables → String → Type 0
IsFinished t id = (j : Job) × (find_job id t ≡ some j) × (is_done j ≡ true)

abbrev Done : Tables → Job → Type 0
Done t j = (find_job j.scan_id t ≡ some j) × (is_done j ≡ true)

module _ (scan_of : String → Option String) where
  -- A scan that may be removed.
  pub record IsPrunable (protected : List String) (d : Archive) (id : String) : Type 0 where
    pub job : Job
    pub found : find_job id d.tables ≡ some job
    pub finished : is_done job ≡ true
    pub unprotected : listed id protected ≡ false
    pub superseded : is_baseline scan_of d.tables.snapshots id ≡ false
    pub delivered : is_blocked scan_of d.uploads id ≡ false

  -- The job is still there, or it was removed and could be.
  abbrev Survives : List String → Archive → Archive → String → Job → Type 0
  Survives protected d d' id j =
      (find_job id d'.tables ≡ some j)
      ⊎ ((find_job id d'.tables ≡ none) × IsPrunable protected d id)
