-- ===== src/Cloud/Exchange/Answers.antt =====
-- The service's answer to the delta of the example, a snapshot and its limits at concrete values.
use Prim.Native.String.{◌++◌ as append}
use os_scanner.Prelude.{◌≡◌, refl, some, [], ◌∷◌, ◌&&◌, leb, ok}
use os_scanner.Json.{
  Json, null, bool, int, negative, real, text, list, object, Items, nil, cons, Fields, end, field,
  lookup, get, same_json,
}
use os_scanner.Storage.Snapshots.{normalize_snapshot, snapshot_hash, digest}
use os_scanner.Storage.Snapshots.Normal.{normalize_snapshot-again}
use os_scanner.Storage.Snapshots.Changes.{compare_snapshots}
use os_scanner.Storage.Snapshots.Listing.{is_listed, differs, compare_snapshots-is_listed}
use os_scanner.Storage.Results.Envelope.{with_envelope, mode_part, delta_part}
use os_scanner.Cloud.Bounded.{bounded_json}
use os_scanner.Cloud.Bounded.Limits.{nodes, fits, bounded_json_lem}
use os_scanner.Cloud.Inventory.{InventoryState, InventoryReconstruction, reconstruct_inventory}
use os_scanner.Cloud.Inventory.Digest.{IsAddressed, reconstruct_inventory-IsAddressed}
use os_scanner.Cloud.Inventory.Base.{Applied, reconstruct_inventory-Applied}
use os_scanner.Cloud.Inventory.Restore.{SaysTheSame}
use os_scanner.Cloud.Inventory.Accepted.{diff_fields, reconstruct_inventory-restores}
use os_scanner.Cloud.Exchange.{
  write, zeros, lib, finite, same_number, before, after, held, state, row, sorts_keys, held_same,
  exact, fitting,
}

abbrev pub part : Fields
part =
    delta_part
      (list (
        os_scanner.Storage.Results.change_dicts
          (compare_snapshots lib same_number (some before) after)))
      ("updates" ∷ []) after

part_made :
    mode_part (diff_fields (compare_snapshots lib same_number (some before) after)) (object after)
    ≡ ok part
unfolding mode_part compare_snapshots os_scanner.Storage.Results.change_dicts
part_made = refl

hash_after : digest lib (object after) ≡ row.payload_hash
unfolding digest write
hash_after = refl

reconstruct_inventory-restores_example :
    (r : InventoryReconstruction) × (reconstruct_inventory lib finite "t" "e" "s2"
        (object (with_envelope row (some (append "b" zeros)) part))
        (some state)
        9
      ≡ ok r)
    × (r.state.snapshot_hash ≡ append "a" zeros)
    × SaysTheSame lib finite same_number r.state.snapshot after
unfolding os_scanner.Cloud.Inventory.Checks.is_digest
reconstruct_inventory-restores_example =
    reconstruct_inventory-restores lib finite same_number before after held row state part "t" "e"
      "s2" 9 fitting sorts_keys held_same exact refl refl refl hash_after part_made

-- What the example's service answers.
abbrev pub accepted : InventoryReconstruction
accepted = record {
  inventory_sync =
      os_scanner.Json.assign "reconstructed_snapshot"
        (object (field "updates" (list (cons (text "bc") nil)) (field "os" (text "linux") end)))
        (with_envelope row (some (append "b" zeros)) part);
  state = record {
    tenant_id = "t";
    endpoint_id = "e";
    snapshot_hash = append "a" zeros;
    snapshot = field "updates" (list (cons (text "bc") nil)) (field "os" (text "linux") end);
    source_scan_id = "s2";
    updated_at = 9;
  };
}

answered :
    reconstruct_inventory lib finite "t" "e" "s2"
      (object (with_envelope row (some (append "b" zeros)) part))
      (some state)
      9
    ≡ ok accepted
unfolding reconstruct_inventory os_scanner.Storage.Results.Envelope.delta_sections
    os_scanner.Storage.Results.Envelope.texts os_scanner.Storage.Results.Envelope.removed_sections
    write
answered = refl

pub held-IsAddressed : IsAddressed lib finite (append "b" zeros) held
unfolding normalize_snapshot snapshot_hash write
held-IsAddressed = record { normal = refl; hashed = refl }

reconstruct_inventory-IsAddressed_example :
    IsAddressed lib finite accepted.state.snapshot_hash accepted.state.snapshot
    × (accepted.state.tenant_id ≡ "t")
    × (accepted.state.endpoint_id ≡ "e")
    × (accepted.state.source_scan_id ≡ "s2")
reconstruct_inventory-IsAddressed_example =
    reconstruct_inventory-IsAddressed lib finite "t" "e" "s2"
      (object (with_envelope row (some (append "b" zeros)) part)) (some state) 9 held-IsAddressed
      answered

reconstruct_inventory-Applied_example :
    Applied lib finite
      (with_envelope row (some (append "b" zeros)) part)
      (get "mode" (with_envelope row (some (append "b" zeros)) part))
      (get "previous_hash" (with_envelope row (some (append "b" zeros)) part))
      (some state)
      accepted.state.snapshot_hash
      accepted.state.snapshot
reconstruct_inventory-Applied_example =
    reconstruct_inventory-Applied lib finite "t" "e" "s2"
      (with_envelope row (some (append "b" zeros)) part) (some state) 9 answered

-- Two updates in the wrong order, and a field that changes at every scan.
abbrev noisy : Fields
noisy =
    field "updates" (list (cons (text "b") (cons (text "a") nil))) (
      field "endpoint" (object (field "last_seen_at" (text "now") end))
        (field "processes" null end))

abbrev quiet : Fields
quiet =
    field "updates" (list (cons (text "a") (cons (text "b") nil)))
      (field "endpoint" (object end) end)

quieted : normalize_snapshot lib (object noisy) ≡ ok quiet
unfolding normalize_snapshot write os_scanner.Storage.Snapshots.without
quieted = refl

normalize_snapshot-again_example :
    (normalize_snapshot lib (object quiet) ≡ ok quiet)
    × (snapshot_hash lib (object quiet) ≡ snapshot_hash lib (object noisy))
    × (snapshot_hash lib (object noisy) ≡ ok (digest lib (object quiet)))
normalize_snapshot-again_example = normalize_snapshot-again lib (object noisy) quieted

compare_snapshots-is_listed_example :
    is_listed lib same_number "updates" (compare_snapshots lib same_number (some before) after)
    ≡ differs lib same_number (lookup "updates" before) (lookup "updates" after)
compare_snapshots-is_listed_example =
    compare_snapshots-is_listed lib same_number "updates" before after

bounded_json_lem_example :
    bounded_json finite 32 4 (object held)
    ≡ (leb (nodes (object held)) 4 && fits finite 32 0 (object held))
bounded_json_lem_example = bounded_json_lem finite 32 4 (object held)
