-- ===== src/Cloud/Inventory/Digest.antt =====
-- The hash and the normal form of an accepted inventory state.
use os_scanner.Prelude.{
  ℕ, [], ◌∷◌, not, String, ◌≡◌, refl, Bool, Option, none, some, str_eq, eq_iff, arith, ok,
  Result-cases, ok-injective, >>=-eq-ok, guarded, sync_error, resync_required, inl, inr, Bool-cases,
  subst, sym, ap, ◌∙◌,
}
use os_scanner.Json.{Json, object, list, text, null, bool, int, negative, real, Fields, get}
use os_scanner.Storage.Runtime.{Runtime}
use os_scanner.Storage.Snapshots.{normal_fields, normalize_snapshot, snapshot_hash}
use os_scanner.Storage.Snapshots.Normal.{normalize_snapshot-again}
use os_scanner.Cloud.Inventory.Checks.{
  has_any, as_fields, checked_mode, inventory_digest, nullable_digest,
}
use os_scanner.Storage.Snapshots.Changes.{has}
use os_scanner.Cloud.Inventory.{
  base_matches, is_bounded, is_small, InventoryState, InventoryReconstruction, bounded_snapshot,
  verify, full_snapshot, delta_snapshot, unchanged_snapshot, snapshot_for, reconstruct_inventory,
  apply_delta, checked_delta,
}

module _ (lib : Runtime) (finite : String → Bool) where
  -- A normalized document whose hash is the given one.
  pub record IsAddressed (hash : String) (snapshot : Fields) : Type 0 where
    pub normal : normalize_snapshot lib (object snapshot) ≡ ok snapshot
    pub hashed : snapshot_hash lib (object snapshot) ≡ ok hash

  abbrev pub HeldIsAddressed : Option InventoryState → Type 0
  HeldIsAddressed none = Unit
  HeldIsAddressed (some s) = IsAddressed s.snapshot_hash s.snapshot

  pub bounded_snapshot-fields :
      (g : Fields) {f : Fields}
      → bounded_snapshot lib finite (object g) ≡ ok f
      → normal_fields lib g ≡ f
  unfolding bounded_snapshot normalize_snapshot
  bounded_snapshot-fields g e =
      ok-injective
        (guarded (is_small lib finite (normal_fields lib g)) sync_error (ok (normal_fields lib g))
          (guarded (is_bounded lib finite g) sync_error _ e).1).1

  bounded_snapshot-normal :
      (j : Json) {f : Fields}
      → bounded_snapshot lib finite j ≡ ok f
      → normalize_snapshot lib (object f) ≡ ok f
  unfolding bounded_snapshot
  bounded_snapshot-normal (object g) e =
      subst (λ x. normalize_snapshot lib (object x) ≡ ok x) (bounded_snapshot-fields g e)
        (normalize_snapshot-again lib (object g) (made g)).0
    where
      made : (g : Fields) → normalize_snapshot lib (object g) ≡ ok (normal_fields lib g)
      made g = unfold normalize_snapshot in refl
  bounded_snapshot-normal null e = cc
  bounded_snapshot-normal (bool b) e = cc
  bounded_snapshot-normal (int n) e = cc
  bounded_snapshot-normal (negative n) e = cc
  bounded_snapshot-normal (real s) e = cc
  bounded_snapshot-normal (text s) e = cc
  bounded_snapshot-normal (list s) e = cc

  pub verify-hashed :
      (claimed : String) (f : Fields) {g : Fields}
      → verify lib finite claimed f ≡ ok g
      → (f ≡ g) × (snapshot_hash lib (object f) ≡ ok claimed)
  unfolding verify
  verify-hashed claimed f e = elim (Result-cases (snapshot_hash lib (object f))) [
    | inr (error, h) ↦ absurd (ground arith)
    | inl (h, made) ↦
        let (same, kept) = guarded (str_eq h claimed) sync_error (ok f) (ground arith) in
        (ok-injective kept, made ∙ ap ok ((eq_iff h claimed).0 same))
  ]

  checked-IsAddressed :
      (j : Json) (claimed : String) (f : Fields) {g : Fields}
      → bounded_snapshot lib finite j ≡ ok f
      → verify lib finite claimed f ≡ ok g
      → IsAddressed claimed g
  checked-IsAddressed j claimed f b v =
      let (same, hashed) = verify-hashed claimed f v in
      subst (IsAddressed claimed) same
        (record { normal = bounded_snapshot-normal j b; hashed = hashed })

  full_snapshot-IsAddressed :
      (sync : Fields) (claimed : String) (previous : Option String)
      (current : Option InventoryState) {f : Fields}
      → full_snapshot lib finite sync claimed previous current ≡ ok f
      → IsAddressed claimed f
  unfolding full_snapshot
  full_snapshot-IsAddressed sync claimed previous current {f} e =
      elim (Result-cases (bounded_snapshot lib finite (get "snapshot" sync))) [
        | inr (error, b) ↦ absurd (ground arith)
        | inl (g, b) ↦ elim (Result-cases (verify lib finite claimed g)) [
          | inr (error, v) ↦ absurd (ground arith)
          | inl (h, v) ↦
              let same : h ≡ f = ground arith in
              subst (IsAddressed claimed) same
                (checked-IsAddressed (get "snapshot" sync) claimed g b v)
        ]
      ]

  delta_snapshot-IsAddressed :
      (sync : Fields) (claimed : String) (previous : Option String)
      (current : Option InventoryState) {f : Fields}
      → delta_snapshot lib finite sync claimed previous current ≡ ok f
      → IsAddressed claimed f
  unfolding delta_snapshot
  delta_snapshot-IsAddressed sync claimed previous none e = cc
  delta_snapshot-IsAddressed sync claimed none (some current) e = cc
  delta_snapshot-IsAddressed sync claimed (some previous) (some current) e =
      let (_, e1) = guarded (str_eq previous current.snapshot_hash) resync_required _ e in
      elim (Result-cases (checked_delta lib finite sync)) [
        | inr (error, c) ↦ absurd (ground arith)
        | inl (d, c) ↦
            elim (Result-cases (
              bounded_snapshot lib finite
                (object (apply_delta lib finite d.0 d.1 current.snapshot)))) [
                  | inr (error, b) ↦ absurd (ground arith)
                  | inl (g, b) ↦
                      checked-IsAddressed (object (apply_delta lib finite d.0 d.1 current.snapshot))
                        claimed g b (ground arith)
                ]
      ]

  pub unchanged_snapshot-kept :
      (sync : Fields) (claimed : String) (previous : Option String) (s : InventoryState)
      {f : Fields}
      → unchanged_snapshot lib finite sync claimed previous (some s) ≡ ok f
      → (s.snapshot_hash ≡ claimed) × (s.snapshot ≡ f)
  unfolding unchanged_snapshot
  unchanged_snapshot-kept sync claimed previous s e =
      let (same, e1) = guarded (str_eq claimed s.snapshot_hash) resync_required _ e in
      let (_, e2) = guarded (base_matches lib finite previous (some s)) resync_required _ e1 in
      let (_, e3) =
        guarded (not (has_any ("snapshot" ∷ "sections" ∷ "removed_sections" ∷ []) sync)) sync_error
          _ e2 in
      (sym ((eq_iff claimed s.snapshot_hash).0 same), ok-injective e3)

  snapshot_for-IsAddressed :
      (mode : String) (sync : Fields) (claimed : String) (previous : Option String)
      (current : Option InventoryState) {f : Fields}
      → HeldIsAddressed current
      → snapshot_for lib finite mode sync claimed previous current ≡ ok f
      → IsAddressed claimed f
  snapshot_for-IsAddressed mode sync claimed previous current {f} held e =
      elim (Bool-cases (str_eq mode "full")) [
        | inl m ↦ full_snapshot-IsAddressed sync claimed previous current (rw m at e)
        | inr m ↦ elim (Bool-cases (str_eq mode "delta")) [
          | inl d ↦ delta_snapshot-IsAddressed sync claimed previous current (rw (m, d) at e)
          | inr d ↦ unchanged current held (rw (m, d) at e)
        ]
      ]
    where
      unchanged :
          (c : Option InventoryState)
          → HeldIsAddressed c
          → unchanged_snapshot lib finite sync claimed previous c ≡ ok f
          → IsAddressed claimed f
      unchanged none h u = absurd (unfold unchanged_snapshot in cc)
      unchanged (some s) h u =
          let (a, b) = unchanged_snapshot-kept sync claimed previous s u in
          subst (λ x. IsAddressed x f) a (subst (IsAddressed s.snapshot_hash) b h)

  -- Whatever envelope an endpoint sends, an accepted one leaves a state of that tenant, endpoint and
  -- scan whose snapshot is normalized and hashes to the hash that the state carries, given that the
  -- state held before was such.
  pub reconstruct_inventory-IsAddressed :
      (tenant_id endpoint_id scan_id : String) (sync : Json) (current : Option InventoryState)
      (now : ℕ) {r : InventoryReconstruction}
      → HeldIsAddressed current
      → reconstruct_inventory lib finite tenant_id endpoint_id scan_id sync current now ≡ ok r
      → IsAddressed r.state.snapshot_hash r.state.snapshot
        × (r.state.tenant_id ≡ tenant_id)
        × (r.state.endpoint_id ≡ endpoint_id)
        × (r.state.source_scan_id ≡ scan_id)
  unfolding reconstruct_inventory
  reconstruct_inventory-IsAddressed tenant_id endpoint_id scan_id sync current now held e =
      let (fields, _, e0) = >>=-eq-ok (as_fields sync) _ e in
      let (_, e1) = guarded (not (has "reconstructed_snapshot" fields)) sync_error _ e0 in
      let (mode, _, e2) = >>=-eq-ok (checked_mode (get "mode" fields)) _ e1 in
      let (claimed, _, e3) = >>=-eq-ok (inventory_digest (get "snapshot_hash" fields)) _ e2 in
      let (previous, _, e4) = >>=-eq-ok (nullable_digest (get "previous_hash" fields)) _ e3 in
      let (f, made, e5) =
        >>=-eq-ok (snapshot_for lib finite mode fields claimed previous current) _ e4 in
      let addressed = snapshot_for-IsAddressed mode fields claimed previous current held made in
      let same = ok-injective e5 in
      (
        subst (λ x. IsAddressed x.state.snapshot_hash x.state.snapshot) same addressed,
        sym (ap (λ x. x.state.tenant_id) same),
        sym (ap (λ x. x.state.endpoint_id) same),
        sym (ap (λ x. x.state.source_scan_id) same),
      )
