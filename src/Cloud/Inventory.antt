-- ===== src/Cloud/Inventory.antt =====
-- reconstruct_inventory of cloud_service/repository.py: the endpoint's inventory envelope, checked and
-- applied to the state that the service holds. `lib` is the serializer and SHA-256 of the storage
-- module, whose code the service calls, and `finite` tells the finite floats. A copy of a document is
-- the document.
pub mod Checks
pub mod Base
pub mod Digest
pub mod Delta
pub mod Sections
pub mod Names
pub mod Restore
pub mod Accepted
use Prim.Native.String.{String}
use os_scanner.Prelude.{
  ℕ, suc, ◌+◌, ◌==◌, Bool, true, false, not, ◌&&◌, ◌||◌, Option, none, some, List, [], ◌∷◌, str_eq,
  leb, ltb, length, any, is_none, is_text, if◌then◌else◌, Result, ok, err, guard, ◌>>=◌, ◌>>◌,
  Error, sync_error, resync_required, type_error,
}
use os_scanner.Prelude.Text.{len, is_empty}
use os_scanner.Json.{
  Json, null, bool, int, negative, real, text, list, object, Items, nil, cons, Fields, end, field,
  lookup, assign, remove, get,
}
use os_scanner.Storage.Runtime.{Runtime}
use os_scanner.Storage.Snapshots.{among, normalize_snapshot, snapshot_hash}
use os_scanner.Storage.Snapshots.Changes.{has, keys}
use os_scanner.Cloud.Inventory.Checks.{
  all_hex, is_digest, inventory_digest, nullable_digest, checked_mode, as_fields, valid_name,
  names_in, names_valid, all_different, overlaps, item_count, field_count, update_with, remove_all,
  has_any, delta_fields, or_names, get_default,
}
use os_scanner.Cloud.Bounded.{bounded_json}

pub record InventoryState : Type 0 where
  pub tenant_id : String
  pub endpoint_id : String
  pub snapshot_hash : String
  pub snapshot : Fields
  pub source_scan_id : String
  pub updated_at : ℕ

pub record InventoryReconstruction : Type 0 where
  pub inventory_sync : Fields
  pub state : InventoryState

module _ (lib : Runtime) (finite : String → Bool) where
  -- bounded_json(value, max_depth=32, max_nodes=_MAX_INVENTORY_NODES)
  unfoldable pub is_bounded : Fields → Bool
  unfolding bounded_json
  is_bounded fields = bounded_json finite 32 300000 (object fields)

  -- The limits on the number of sections and on the size of the text.
  unfoldable pub is_small : Fields → Bool
  unfolding field_count
  is_small fields =
      leb (field_count fields) 512
      && leb (length (lib.encode (lib.canonical_json (object fields)))) 16777216

  -- The limits of a snapshot, and its normal form. A TypeError or ValueError is an InventorySyncError.
  unfoldable pub bounded_snapshot : Json → Result Fields
  unfolding is_bounded normalize_snapshot is_small
  bounded_snapshot (object fields) =
      guard (is_bounded fields) sync_error
      >> (normalize_snapshot lib (object fields) >>= λ normalized.
          guard (is_small normalized) sync_error >> ok normalized)
  bounded_snapshot _ = err sync_error

  -- if calculated != claimed_hash
  unfoldable pub verify : String → Fields → Result Fields
  unfolding snapshot_hash
  verify claimed snapshot = snapshot_hash lib (object snapshot) >>= λ calculated.
      guard (str_eq calculated claimed) sync_error >> ok snapshot

  -- `current is None or hash != current.snapshot_hash`
  abbrev pub is_held : String → Option InventoryState → Bool
  is_held hash none = false
  is_held hash (some current) = str_eq hash current.snapshot_hash

  -- A supplied base of a full upload must be the current one.
  abbrev pub base_matches : Option String → Option InventoryState → Bool
  base_matches none current = true
  base_matches (some hash) current = is_held hash current

  unfoldable pub full_snapshot :
      Fields → String → Option String → Option InventoryState → Result Fields
  unfolding bounded_snapshot verify has get any
  full_snapshot sync claimed previous current =
      guard (not (has_any ("sections" ∷ "removed_sections" ∷ []) sync)) sync_error
      >> (bounded_snapshot (get "snapshot" sync) >>= λ snapshot.
          verify claimed snapshot >>= λ verified.
          guard (base_matches previous current) resync_required >> ok verified)

  -- The base with the sections of a delta replaced and removed.
  unfoldable pub apply_delta : Fields → List String → Fields → Fields
  unfolding update_with remove_all
  apply_delta sections removed held = remove_all removed (update_with sections held)

  -- The checks of the names of the sections of a delta.
  unfoldable pub names_agree : Fields → List String → Bool
  unfolding all_different overlaps field_count
  names_agree sections removed =
      all_different removed
      && not (overlaps sections removed)
      && not (field_count sections + length removed == 0)

  unfoldable pub checked_delta : Fields → Result (Fields × List String)
  unfolding names_in names_valid names_agree lookup item_count field_count has
  checked_delta sync =
      guard (not (has "snapshot" sync)) sync_error
      >> (delta_fields (get_default "sections" (object end) sync)
            (get_default "removed_sections" (list nil) sync)
          >>= λ both.
              guard (leb (field_count both.0 + item_count both.1) 512) sync_error
              >> (guard (names_valid both.0) sync_error
                  >> (or_names (names_in both.1) >>= λ removed.
                      guard (names_agree both.0 removed) sync_error >> ok (both.0, removed))))

  unfoldable pub delta_snapshot :
      Fields → String → Option String → Option InventoryState → Result Fields
  unfolding checked_delta apply_delta bounded_snapshot verify
  delta_snapshot sync claimed previous none = err resync_required
  delta_snapshot sync claimed none (some current) = err resync_required
  delta_snapshot sync claimed (some previous) (some current) =
      guard (str_eq previous current.snapshot_hash) resync_required
      >> (checked_delta sync >>= λ delta.
          bounded_snapshot (object (apply_delta delta.0 delta.1 current.snapshot)) >>= λ snapshot.
          verify claimed snapshot)

  unfoldable pub unchanged_snapshot :
      Fields → String → Option String → Option InventoryState → Result Fields
  unfolding has any
  unchanged_snapshot sync claimed previous none = err resync_required
  unchanged_snapshot sync claimed previous (some current) =
      guard (str_eq claimed current.snapshot_hash) resync_required
      >> (guard (base_matches previous (some current)) resync_required
          >> (guard (not (has_any ("snapshot" ∷ "sections" ∷ "removed_sections" ∷ []) sync))
                sync_error
              >> ok current.snapshot))

  abbrev pub snapshot_for :
      String → Fields → String → Option String → Option InventoryState → Result Fields
  snapshot_for mode sync claimed previous current =
      if str_eq mode "full"
      then full_snapshot sync claimed previous current
      else if str_eq mode "delta"
      then delta_snapshot sync claimed previous current
      else unchanged_snapshot sync claimed previous current

  unfoldable pub reconstruct_inventory :
      String → String → String → Json → Option InventoryState → ℕ → Result InventoryReconstruction
  unfolding full_snapshot delta_snapshot unchanged_snapshot has get checked_mode is_digest assign
  reconstruct_inventory tenant_id endpoint_id scan_id inventory_sync current now =
      as_fields inventory_sync >>= λ sync.
      guard (not (has "reconstructed_snapshot" sync)) sync_error
      >> (checked_mode (get "mode" sync) >>= λ mode.
          inventory_digest (get "snapshot_hash" sync) >>= λ claimed.
          nullable_digest (get "previous_hash" sync) >>= λ previous.
          snapshot_for mode sync claimed previous current >>= λ snapshot. ok (record {
            inventory_sync = assign "reconstructed_snapshot" (object snapshot) sync;
            state = record {
              tenant_id = tenant_id;
              endpoint_id = endpoint_id;
              snapshot_hash = claimed;
              snapshot = snapshot;
              source_scan_id = scan_id;
              updated_at = now;
            };
          }))
