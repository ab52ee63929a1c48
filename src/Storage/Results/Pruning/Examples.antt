-- ===== src/Storage/Results/Pruning/Examples.antt =====
-- Two delivered scans of an endpoint, of which the older one is pruned.
use os_scanner.Prelude.{ℕ, String, ◌≡◌, refl, Bool, true, false, Option, none, some, [], ◌∷◌, ok}
use os_scanner.Storage.Scans.{Job, Payload, SnapshotRow}
use os_scanner.Storage.Results.Pruning.{Archive, remove, prune_completed_scan_records}
use os_scanner.Storage.Results.Pruning.Linked.{IsLinked, prune_completed_scan_records-IsLinked}

abbrev old_job : Job
old_job = record {
  scan_id = "old";
  endpoint_id = some "e";
  scan_type = "FULL";
  policy_id = none;
  status = "COMPLETED";
  authorization_json = "{}";
  initiator = none;
  target = none;
  requested_at = "1";
  started_at = none;
  completed_at = some "1";
  result_status = none;
  failure = none;
  job_json = "{}";
  job_hash = "j";
  updated_at = "1";
}

abbrev new_job : Job
new_job = record old_job { scan_id = "new"; completed_at = some "3" }

abbrev old_row : SnapshotRow
old_row = record {
  snapshot_id = 1;
  endpoint_id = "e";
  scan_id = "old";
  payload_hash = "a";
  previous_snapshot_id = none;
  schema_version = "1.0";
  policy_version = none;
  scanner_version = none;
  changed = true;
  diff_json = "{}";
  created_at = "1";
}

abbrev new_row : SnapshotRow
new_row = record old_row {
  snapshot_id = 2;
  scan_id = "new";
  payload_hash = "b";
  previous_snapshot_id = some 1;
}

abbrev payload : String → Payload
payload hash = record { payload_hash = hash; payload_json = "{}"; size_bytes = 2; created_at = "1" }

abbrev stored : Archive
stored = record {
  tables = record {
    endpoints = [];
    jobs = old_job ∷ new_job ∷ [];
    history = [];
    next_history_id = 1;
    findings = [];
    collectors = [];
    payloads = payload "a" ∷ payload "b" ∷ [];
    snapshots = old_row ∷ new_row ∷ [];
    next_snapshot_id = 3;
  };
  uploads = [];
  results = [];
  result_payloads = [];
}

abbrev no_scan : String → Option String
no_scan metadata = none

abbrev pruned : Archive
pruned = remove ("old" ∷ []) stored

-- Both jobs are done, and the new one carries the latest snapshot.
one_pruned : prune_completed_scan_records no_scan "2" 10 [] 5 stored ≡ ok (1, pruned)
unfolding prune_completed_scan_records
one_pruned = refl

stored-IsLinked : IsLinked stored
unfolding os_scanner.Prelude.any
stored-IsLinked = record {
  history = tt;
  findings = tt;
  collectors = tt;
  snapshots = (refl, (refl, tt));
  payloads = (refl, (refl, tt));
  previous = (tt, (refl, tt));
  results = tt;
  result_payloads = tt;
}

prune_completed_scan_records-IsLinked_example : IsLinked pruned
prune_completed_scan_records-IsLinked_example =
    prune_completed_scan_records-IsLinked no_scan "2" 10 [] 5 stored stored-IsLinked one_pruned
