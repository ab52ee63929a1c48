-- ===== src/Cloud/Inventory/Base.antt =====
-- What an accepted inventory envelope was applied to.
use os_scanner.Prelude.{
  ℕ, ◌+◌, leb, List, String, ◌≡◌, refl, Bool, true, not, Option, none, some, [], ◌∷◌, str_eq,
  eq_iff, arith, ok, ok-injective, >>=-eq-ok, guarded, sync_error, resync_required, inl, inr, ◌⊎◌,
  Bool-cases, subst, sym, ap, ◌∙◌,
}
use os_scanner.Json.{
  Json, Items, nil, end, object, list, text, null, bool, int, negative, real, Fields, get,
}
use os_scanner.Storage.Runtime.{Runtime}
use os_scanner.Storage.Snapshots.Changes.{has}
use os_scanner.Cloud.Inventory.Checks.{
  checked_mode, inventory_digest, nullable_digest, is_digest, has_any, delta_fields, or_names,
  names_in, names_valid, get_default, field_count, item_count,
}
use os_scanner.Cloud.Inventory.{
  checked_delta, apply_delta, names_agree, InventoryState, InventoryReconstruction, full_snapshot,
  delta_snapshot, unchanged_snapshot, bounded_snapshot, verify, snapshot_for, reconstruct_inventory,
  base_matches,
}
use os_scanner.Cloud.Inventory.Digest.{
  unchanged_snapshot-kept, verify-hashed, bounded_snapshot-fields,
}
use os_scanner.Cloud.Inventory.Delta.{IsMerged, apply_delta-IsMerged}
use os_scanner.Storage.Snapshots.{normalize_snapshot}

checked_mode-eq : (j : Json) {m : String} → checked_mode j ≡ ok m → j ≡ text m
unfolding checked_mode
checked_mode-eq (text s) e = ground arith
checked_mode-eq null e = cc
checked_mode-eq (bool b) e = cc
checked_mode-eq (int n) e = cc
checked_mode-eq (negative n) e = cc
checked_mode-eq (real s) e = cc
checked_mode-eq (list s) e = cc
checked_mode-eq (object s) e = cc

-- The modes that pass the check are three.
checked_mode-cases :
    (j : Json) {m : String}
    → checked_mode j ≡ ok m
    → (j ≡ text "full") ⊎ (j ≡ text "delta") ⊎ (j ≡ text "unchanged")
unfolding checked_mode
checked_mode-cases (text s) e = elim (Bool-cases (str_eq s "full")) [
  | inl h ↦ inl (ap text ((eq_iff s "full").0 h))
  | inr f ↦ elim (Bool-cases (str_eq s "delta")) [
    | inl h ↦ inr (inl (ap text ((eq_iff s "delta").0 h)))
    | inr d ↦ inr (inr (ap text ((eq_iff s "unchanged").0 (ground arith))))
  ]
]
checked_mode-cases null e = absurd (cc)
checked_mode-cases (bool b) e = absurd (cc)
checked_mode-cases (int n) e = absurd (cc)
checked_mode-cases (negative n) e = absurd (cc)
checked_mode-cases (real s) e = absurd (cc)
checked_mode-cases (list s) e = absurd (cc)
checked_mode-cases (object s) e = absurd (cc)

text-injective : {a b : String} → text a ≡ text b → a ≡ b
text-injective h = cc

inventory_digest-eq : (j : Json) {s : String} → inventory_digest j ≡ ok s → j ≡ text s
unfolding is_digest
inventory_digest-eq (text s) e = ground arith
inventory_digest-eq null e = cc
inventory_digest-eq (bool b) e = cc
inventory_digest-eq (int n) e = cc
inventory_digest-eq (negative n) e = cc
inventory_digest-eq (real s) e = cc
inventory_digest-eq (list s) e = cc
inventory_digest-eq (object s) e = cc

abbrev digest_value : Option String → Json
digest_value none = null
digest_value (some s) = text s

nullable_digest-eq : (j : Json) {o : Option String} → nullable_digest j ≡ ok o → j ≡ digest_value o
nullable_digest-eq null e = ground arith
nullable_digest-eq (text s) {o} e =
    let (t, d, e1) = >>=-eq-ok (inventory_digest (text s)) (λ t. ok (some t)) e in
    subst (λ x. text s ≡ digest_value x) (ok-injective e1) (inventory_digest-eq (text s) d)
nullable_digest-eq (bool b) e = cc
nullable_digest-eq (int n) e = cc
nullable_digest-eq (negative n) e = cc
nullable_digest-eq (real s) e = cc
nullable_digest-eq (list s) e = cc
nullable_digest-eq (object s) e = cc

module _ (lib : Runtime) (finite : String → Bool) where
  -- The hash that an envelope names as its base is that of the state held.
  abbrev pub NamesBase : Json → Option InventoryState → Type 0
  NamesBase previous none = ⊥
  NamesBase previous (some s) = previous ≡ text s.snapshot_hash

  -- A full envelope leaves the snapshot that it carries, normalized.
  pub record IsFull (sync : Fields) (previous : Json) (current : Option InventoryState) (f : Fields)
      : Type 0 where
    pub uploaded : Fields
    pub carried : get "snapshot" sync ≡ object uploaded
    pub base : (previous ≡ null) ⊎ NamesBase previous current
    pub left : normalize_snapshot lib (object uploaded) ≡ ok f

  -- A delta leaves the snapshot of the state held with its sections put in and removed, normalized.
  pub record IsDelta (sync : Fields) (previous : Json) (current : Option InventoryState)
      (f : Fields) : Type 0 where
    pub state : InventoryState
    pub sections : Fields
    pub items : Items
    pub removed : List String
    pub merged : Fields
    pub held : current ≡ some state
    pub base : previous ≡ text state.snapshot_hash
    pub changed : get_default "sections" (object end) sync ≡ object sections
    pub listed : get_default "removed_sections" (list nil) sync ≡ list items
    pub named : names_in items ≡ some removed
    pub sections_merged : IsMerged sections removed state.snapshot merged
    pub left : normalize_snapshot lib (object merged) ≡ ok f

  -- An unchanged envelope leaves the snapshot held.
  pub record IsUnchanged (current : Option InventoryState) (claimed : String) (f : Fields)
      : Type 0 where
    pub state : InventoryState
    pub held : current ≡ some state
    pub same_hash : claimed ≡ state.snapshot_hash
    pub same_snapshot : f ≡ state.snapshot

  -- What an accepted envelope of the given mode was applied to, and what it left.
  abbrev pub Applied : Fields → Json → Json → Option InventoryState → String → Fields → Type 0
  Applied sync mode previous current claimed f =
      ((mode ≡ text "full") × IsFull sync previous current f)
      ⊎ (((mode ≡ text "delta") × IsDelta sync previous current f)
          ⊎ ((mode ≡ text "unchanged") × IsUnchanged current claimed f))

  bounded_snapshot-object :
      (j : Json) {f : Fields}
      → bounded_snapshot lib finite j ≡ ok f
      → (g : Fields) × (j ≡ object g) × (normalize_snapshot lib (object g) ≡ ok f)
  bounded_snapshot-object (object g) e =
      (g, refl, unfold normalize_snapshot in ap ok (bounded_snapshot-fields lib finite g e))
  bounded_snapshot-object null e = absurd (unfold bounded_snapshot in cc)
  bounded_snapshot-object (bool b) e = absurd (unfold bounded_snapshot in cc)
  bounded_snapshot-object (int n) e = absurd (unfold bounded_snapshot in cc)
  bounded_snapshot-object (negative n) e = absurd (unfold bounded_snapshot in cc)
  bounded_snapshot-object (real s) e = absurd (unfold bounded_snapshot in cc)
  bounded_snapshot-object (text s) e = absurd (unfold bounded_snapshot in cc)
  bounded_snapshot-object (list s) e = absurd (unfold bounded_snapshot in cc)

  full_base :
      (previous : Option String) (current : Option InventoryState)
      → base_matches lib finite previous current ≡ true
      → (digest_value previous ≡ null) ⊎ NamesBase (digest_value previous) current
  full_base none current m = inl refl
  full_base (some p) none m = absurd (cc)
  full_base (some p) (some s) m = inr (ap text ((eq_iff p s.snapshot_hash).0 m))

  full_snapshot-IsFull :
      (sync : Fields) (claimed : String) (previous : Option String)
      (current : Option InventoryState) {f : Fields}
      → full_snapshot lib finite sync claimed previous current ≡ ok f
      → IsFull sync (digest_value previous) current f
  unfolding full_snapshot
  full_snapshot-IsFull sync claimed previous current {f} e =
      let (_, e1) =
        guarded (not (has_any ("sections" ∷ "removed_sections" ∷ []) sync)) sync_error _ e in
      let (g, bounded, e2) = >>=-eq-ok (bounded_snapshot lib finite (get "snapshot" sync)) _ e1 in
      let (h, verified, e3) = >>=-eq-ok (verify lib finite claimed g) _ e2 in
      let (m, e4) = guarded (base_matches lib finite previous current) resync_required _ e3 in
      let (uploaded, carried, normal) = bounded_snapshot-object (get "snapshot" sync) bounded in
      record {
        uploaded = uploaded;
        carried = carried;
        base = full_base previous current m;
        left = normal ∙ ap ok ((verify-hashed lib finite claimed g verified).0 ∙ ok-injective e4);
      }

  -- The parts of a delta that passes its checks.
  checked_delta-parts :
      (sync : Fields) {sections : Fields} {removed : List String}
      → checked_delta lib finite sync ≡ ok (sections, removed)
      → (items : Items) × (get_default "sections" (object end) sync ≡ object sections)
        × (get_default "removed_sections" (list nil) sync ≡ list items)
        × (names_in items ≡ some removed)
  unfolding checked_delta
  checked_delta-parts sync {sections} {removed} e =
      let (_, e1) = guarded (not (has "snapshot" sync)) sync_error _ e in
      let ((all, items), d, e2) =
        >>=-eq-ok
          (delta_fields (get_default "sections" (object end) sync)
            (get_default "removed_sections" (list nil) sync))
          _ e1 in
      let (_, e3) = guarded (leb (field_count all + item_count items) 512) sync_error _ e2 in
      let (_, e4) = guarded (names_valid all) sync_error _ e3 in
      let (names, n, e5) = >>=-eq-ok (or_names (names_in items)) _ e4 in
      let (_, e6) = guarded (names_agree lib finite all names) sync_error _ e5 in
      let same = ok-injective e6 in
      let (s, r) =
        delta_fields-objects (get_default "sections" (object end) sync)
          (get_default "removed_sections" (list nil) sync) d in
      (
        items,
        s ∙ ap (λ x. object x.0) same,
        r,
        or_names-some (names_in items) n ∙ ap (λ x. some x.1) same,
      )
    where
      delta_fields-objects :
          (a b : Json) {x : Fields} {y : Items}
          → delta_fields a b ≡ ok (x, y)
          → (a ≡ object x) × (b ≡ list y)
      delta_fields-objects (object a) (list b) e = (ground (arith, e), ground (arith, e))
      delta_fields-objects a b e = absurd (cc)

      or_names-some : (o : Option (List String)) {n : List String} → or_names o ≡ ok n → o ≡ some n
      or_names-some none e = absurd (cc)
      or_names-some (some n) e = ap some (ok-injective e)

  delta_snapshot-IsDelta :
      (sync : Fields) (claimed : String) (previous : Option String)
      (current : Option InventoryState) {f : Fields}
      → delta_snapshot lib finite sync claimed previous current ≡ ok f
      → IsDelta sync (digest_value previous) current f
  unfolding delta_snapshot
  delta_snapshot-IsDelta sync claimed previous none e = absurd (cc)
  delta_snapshot-IsDelta sync claimed none (some s) e = absurd (cc)
  delta_snapshot-IsDelta sync claimed (some p) (some s) {f} e =
      let (named, e1) = guarded (str_eq p s.snapshot_hash) resync_required _ e in
      let ((sections, removed), checked, e2) = >>=-eq-ok (checked_delta lib finite sync) _ e1 in
      let merged = apply_delta lib finite sections removed s.snapshot in
      let (g, bounded, verified) = >>=-eq-ok (bounded_snapshot lib finite (object merged)) _ e2 in
      let (items, changed, listed, names) = checked_delta-parts sync checked in
      record {
        state = s;
        sections = sections;
        items = items;
        removed = removed;
        merged = merged;
        held = refl;
        base = ap text ((eq_iff p s.snapshot_hash).0 named);
        changed = changed;
        listed = listed;
        named = names;
        sections_merged = apply_delta-IsMerged lib finite sections removed s.snapshot;
        left =
            (unfold normalize_snapshot in ap ok (bounded_snapshot-fields lib finite merged bounded))
            ∙ ap ok (verify-hashed lib finite claimed g verified).0;
      }

  unchanged_snapshot-IsUnchanged :
      (sync : Fields) (claimed : String) (previous : Option String)
      (current : Option InventoryState) (f : Fields)
      → unchanged_snapshot lib finite sync claimed previous current ≡ ok f
      → IsUnchanged current claimed f
  unfolding unchanged_snapshot
  unchanged_snapshot-IsUnchanged sync claimed previous none f u = absurd (cc)
  unchanged_snapshot-IsUnchanged sync claimed previous (some s) f u =
      let (k, l) = unchanged_snapshot-kept lib finite sync claimed previous s u in
      record { state = s; held = refl; same_hash = sym k; same_snapshot = sym l }

  snapshot_for-Applied :
      (j : Json) (mode : String) (sync : Fields) (claimed : String) (previous : Option String)
      (current : Option InventoryState) (f : Fields)
      → checked_mode j ≡ ok mode
      → snapshot_for lib finite mode sync claimed previous current ≡ ok f
      → Applied sync j (digest_value previous) current claimed f
  snapshot_for-Applied j mode sync claimed previous current f m made =
      elim (checked_mode-cases j m) [
        | inl h ↦ inl (h, full_snapshot-IsFull sync claimed previous current (rw (is h) at made))
        | inr (inl h) ↦
            inr (inl (h, delta_snapshot-IsDelta sync claimed previous current (rw (is h) at made)))
        | inr (inr h) ↦ inr (
            inr (
              h,
              unchanged_snapshot-IsUnchanged sync claimed previous current f (rw (is h) at made),
            ))
      ]
    where
      is : {s : String} → j ≡ text s → mode ≡ s
      is h = text-injective (sym (checked_mode-eq j m) ∙ h)

  -- An accepted envelope is full, without a base or on the hash of the state held, and leaves the
  -- snapshot that it carries; or it is a delta on the hash of the state held, and leaves the snapshot
  -- held with the sections of the delta put in and the listed ones removed; both are normalized. Or it
  -- says that the state held is unchanged, and leaves its snapshot and its hash as they are.
  pub reconstruct_inventory-Applied :
      (tenant_id endpoint_id scan_id : String) (sync : Fields) (current : Option InventoryState)
      (now : ℕ) {r : InventoryReconstruction}
      → reconstruct_inventory lib finite tenant_id endpoint_id scan_id (object sync) current now
        ≡ ok r
      → Applied sync
          (get "mode" sync)
          (get "previous_hash" sync)
          current
          r.state.snapshot_hash
          r.state.snapshot
  unfolding reconstruct_inventory
  reconstruct_inventory-Applied tenant_id endpoint_id scan_id sync current now {r} e =
      let (_, e1) = guarded (not (has "reconstructed_snapshot" sync)) sync_error _ e in
      let (mode, m, e2) = >>=-eq-ok (checked_mode (get "mode" sync)) _ e1 in
      let (claimed, _, e3) = >>=-eq-ok (inventory_digest (get "snapshot_hash" sync)) _ e2 in
      let (previous, p, e4) = >>=-eq-ok (nullable_digest (get "previous_hash" sync)) _ e3 in
      let (f, made, e5) =
        >>=-eq-ok (snapshot_for lib finite mode sync claimed previous current) _ e4 in
      subst (λ x. Applied sync (get "mode" sync) x current r.state.snapshot_hash r.state.snapshot)
        (sym (nullable_digest-eq (get "previous_hash" sync) p))
        (subst
          (λ x.
            Applied sync (get "mode" sync) (digest_value previous) current x.state.snapshot_hash
              x.state.snapshot)
          (ok-injective e5)
          (snapshot_for-Applied (get "mode" sync) mode sync claimed previous current f m made))
