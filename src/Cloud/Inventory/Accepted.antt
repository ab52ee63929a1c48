-- ===== src/Cloud/Inventory/Accepted.antt =====
-- The delta that the endpoint computes from two snapshots, as the service answers it.
use os_scanner.Prelude.{
  ℕ, ◌==◌, String, ◌≡◌, refl, Bool, true, false, some, List, [], ◌∷◌, ap, sym, ◌∙◌, subst,
  str_eq_refl, length, All, leb, ok, ok-injective,
}
use os_scanner.Json.{Json, bool, list, object, Fields, end, field, lookup, get, truthy, assign}
use os_scanner.Storage.Runtime.{Runtime, hash_text}
use os_scanner.Storage.Snapshots.{digest, normal_fields, normalize_snapshot, snapshot_hash}
use os_scanner.Storage.Snapshots.Changes.{SectionChange, keys, has, compare_snapshots}
use os_scanner.Storage.Scans.{SnapshotRow}
use os_scanner.Storage.Results.{change_dicts}
use os_scanner.Storage.Results.Envelope.{
  delta_sections, removed_sections, with_envelope, delta_part, mode_part, section_names,
}
use os_scanner.Cloud.Inventory.Checks.{all_different, is_digest, checked_mode}
use os_scanner.Cloud.Inventory.{
  InventoryState, InventoryReconstruction, is_bounded, is_small, bounded_snapshot, verify,
  names_agree, checked_delta, delta_snapshot, reconstruct_inventory,
}
use os_scanner.Cloud.Inventory.Sections.{apply_delta-normal}
use os_scanner.Cloud.Inventory.Names.{
  IsValidName, changed_names, all_different-changed_names, all_different-removed_sections,
  overlaps-removed_sections, field_count-delta_sections, item_count-texts, names_in-texts,
  removed_sections-All, names_valid-delta_sections,
}
use os_scanner.Cloud.Inventory.Restore.{
  SaysTheSame, ComparesExactly, names_of, restored, restored-SaysTheSame,
}

-- The names that the endpoint reads back from the changes that it recorded.
section_names-change_dicts :
    (cs : List SectionChange) → section_names (change_dicts cs) ≡ ok (changed_names cs)
unfolding section_names change_dicts lookup
section_names-change_dicts [] = refl
section_names-change_dicts (c ∷ cs) = rw (section_names-change_dicts cs) refl

-- The fields of a recorded difference.
abbrev pub diff_fields : List SectionChange → Fields
diff_fields changes =
    field "initial" (bool false)
      (field "changed" (bool true) (field "changes" (list (change_dicts changes)) end))

mode_part-diff_fields :
    (changes : List SectionChange) (after : Fields)
    → mode_part (diff_fields changes) (object after)
      ≡ ok (delta_part (list (change_dicts changes)) (changed_names changes) after)
unfolding mode_part lookup truthy
mode_part-diff_fields changes after = rw (section_names-change_dicts changes) refl

module _ (lib : Runtime) (finite : String → Bool) (same_number : Json → Json → Bool) where
  -- What the delta from `before` to `after`, applied to `held`, has to satisfy.
  pub record Fits (before after held : Fields) : Type 0 where
    pub after_normal : normal_fields lib after ≡ after
    pub held_normal : normal_fields lib held ≡ held
    pub before_keys : all_different (keys before) ≡ true
    pub after_keys : all_different (keys after) ≡ true
    pub names : All IsValidName (names_of lib finite same_number before after)
    pub few : leb (length (names_of lib finite same_number before after)) 512 ≡ true
    pub changed : (length (names_of lib finite same_number before after) == 0) ≡ false
    pub bounded : is_bounded lib finite (restored lib finite same_number before after held) ≡ true
    pub small : is_small lib finite (restored lib finite same_number before after held) ≡ true

  module _ (before after held : Fields) (fits : Fits before after held) where
    abbrev ns : List String
    ns = names_of lib finite same_number before after

    abbrev sync : SnapshotRow → String → Json → Fields
    sync row hash changes = with_envelope row (some hash) (delta_part changes ns after)

    names_agree_lem :
        names_agree lib finite (delta_sections ns after) (removed_sections ns after) ≡ true
    unfolding names_agree
    names_agree_lem =
        rw
          (
            all_different-removed_sections ns after (
                all_different-changed_names lib same_number before after fits.before_keys
                  fits.after_keys),
            overlaps-removed_sections ns ns after,
            field_count-delta_sections ns after,
            fits.changed,
          )
          refl

    checked_delta_lem :
        (row : SnapshotRow) (hash : String) (changes : Json)
        → checked_delta lib finite (sync row hash changes)
          ≡ ok (delta_sections ns after, removed_sections ns after)
    unfolding checked_delta has lookup
    checked_delta_lem row hash changes =
        rw
          (
            item_count-texts (removed_sections ns after),
            field_count-delta_sections ns after,
            fits.few,
            names_valid-delta_sections ns after fits.names,
            names_in-texts (removed_sections ns after) (removed_sections-All ns after fits.names),
            names_agree_lem,
          )
          refl

    bounded_snapshot_lem :
        bounded_snapshot lib finite (object (restored lib finite same_number before after held))
        ≡ ok (restored lib finite same_number before after held)
    unfolding bounded_snapshot normalize_snapshot
    bounded_snapshot_lem =
        rw
          (
            fits.bounded,
            apply_delta-normal lib finite ns after held fits.after_normal fits.held_normal,
            fits.small,
          )
          refl

    verify_lem :
        (hash : String) (f : Fields)
        → normal_fields lib f ≡ f
        → digest lib (object f) ≡ hash
        → verify lib finite hash f ≡ ok f
    unfolding verify snapshot_hash normalize_snapshot
    verify_lem hash f n d = rw (n, d, str_eq_refl hash) refl

    delta_snapshot_lem :
        (row : SnapshotRow) (hash : String) (changes : Json) (s : InventoryState)
        → s.snapshot ≡ held
        → s.snapshot_hash ≡ hash
        → digest lib (object (restored lib finite same_number before after held)) ≡ row.payload_hash
        → delta_snapshot lib finite (sync row hash changes) row.payload_hash (some hash) (some s)
          ≡ ok (restored lib finite same_number before after held)
    unfolding delta_snapshot
    delta_snapshot_lem row hash changes s holds hashed d =
        rw
          (
            hashed,
            str_eq_refl hash,
            checked_delta_lem row hash changes,
            holds,
            bounded_snapshot_lem,
            verify_lem row.payload_hash (restored lib finite same_number before after held)
                (apply_delta-normal lib finite ns after held fits.after_normal fits.held_normal) d,
          )
          refl

  -- The answer to a delta that restores a snapshot.
  abbrev accepted_by :
      SnapshotRow
      → InventoryState
      → Json
      → List String
      → Fields
      → String
      → String
      → String
      → ℕ
      → Fields
      → InventoryReconstruction
  accepted_by row s changes names after tenant_id endpoint_id scan_id now snapshot = record {
    inventory_sync =
        assign "reconstructed_snapshot" (object snapshot)
          (with_envelope row (some s.snapshot_hash) (delta_part changes names after));
    state = record {
      tenant_id = tenant_id;
      endpoint_id = endpoint_id;
      snapshot_hash = row.payload_hash;
      snapshot = snapshot;
      source_scan_id = scan_id;
      updated_at = now;
    };
  }

  -- The round trip of a changed snapshot. The endpoint compares `before` with `after`, and sends the
  -- envelope of its recorded difference. A service that holds a state which says the same as `before`,
  -- under the hash that the envelope names as the previous one, accepts the envelope, and then holds a
  -- snapshot that says the same as `after`, under the hash of `after`. This is so if the two snapshots
  -- are normalized, their keys and sizes keep to the limits, the hashes are SHA-256 texts, the
  -- serializer sorts keys, and Python's `==` took no values with different texts for equal.
  pub reconstruct_inventory-restores :
      (before after held : Fields) (row : SnapshotRow) (s : InventoryState) (part : Fields)
      (tenant_id endpoint_id scan_id : String) (now : ℕ)
      → Fits before after held
      → ((f g : Fields)
          → SaysTheSame lib finite same_number f g
          → lib.canonical_json (object f) ≡ lib.canonical_json (object g))
      → SaysTheSame lib finite same_number held before
      → ComparesExactly lib finite same_number before after
      → s.snapshot ≡ held
      → is_digest s.snapshot_hash ≡ true
      → is_digest row.payload_hash ≡ true
      → digest lib (object after) ≡ row.payload_hash
      → mode_part
          (diff_fields (compare_snapshots lib same_number (some before) after))
          (object after)
        ≡ ok part
      → (r : InventoryReconstruction) × (reconstruct_inventory lib finite tenant_id endpoint_id
            scan_id
            (object (with_envelope row (some s.snapshot_hash) part))
            (some s)
            now
          ≡ ok r)
        × (r.state.snapshot_hash ≡ row.payload_hash)
        × SaysTheSame lib finite same_number r.state.snapshot after
  unfolding reconstruct_inventory has get lookup checked_mode
  reconstruct_inventory-restores before after held row s part tenant_id endpoint_id scan_id now fits
        sorts same exact holds hash_ok digest_ok hashed made =
      let changes : List SectionChange = compare_snapshots lib same_number (some before) after in
      let is_part : delta_part (list (change_dicts changes)) (changed_names changes) after ≡ part =
        ok-injective (sym (mode_part-diff_fields changes after) ∙ made) in
      let says = restored-SaysTheSame lib finite same_number before after held same exact in
      let text_same = sorts (restored lib finite same_number before after held) after says in
      let digest_same : digest lib (object (restored lib finite same_number before after held))
          ≡ row.payload_hash =
        (unfold digest in ap (hash_text lib) text_same) ∙ hashed in
      let accepted =
        delta_snapshot_lem before after held fits row s.snapshot_hash (list (change_dicts changes))
          s holds refl digest_same in
      subst
        (λ p.
          (r : InventoryReconstruction) × (reconstruct_inventory lib finite tenant_id endpoint_id
              scan_id (object (with_envelope row (some s.snapshot_hash) p)) (some s) now
            ≡ ok r)
          × (r.state.snapshot_hash ≡ row.payload_hash)
          × SaysTheSame lib finite same_number r.state.snapshot after)
        is_part
        (
          accepted_by row s (list (change_dicts changes)) (changed_names changes) after tenant_id
              endpoint_id scan_id now (restored lib finite same_number before after held),
          rw (digest_ok, hash_ok, accepted) refl,
          refl,
          says,
        )
