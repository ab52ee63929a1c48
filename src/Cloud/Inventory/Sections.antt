-- ===== src/Cloud/Inventory/Sections.antt =====
-- Deltas of normalized sections on normalized snapshots.
use os_scanner.Prelude.{
  ◌≤◌, String, ◌≡◌, refl, Bool, false, some, List, [], ◌∷◌, arith, ap, sym, subst, str_eq, eq_iff,
  Bool-cases, Option-cases, inl, inr,
}
use os_scanner.Json.{Json, Fields, end, field, lookup, assign, remove}
use os_scanner.Storage.Runtime.{Runtime}
use os_scanner.Storage.Snapshots.{normal_section, normal_fields}
use os_scanner.Storage.Results.Envelope.{delta_sections, removed_sections}
use os_scanner.Cloud.Inventory.Checks.{update_with, remove_all, field_count}
use os_scanner.Cloud.Inventory.{apply_delta}

module _ (lib : Runtime) where
  -- A section that normalization leaves as it is.
  abbrev pub IsNormal : String → Json → Type 0
  IsNormal k v = (str_eq k "processes" ≡ false) × (normal_section lib k v ≡ v)

  abbrev pub EachNormal : Fields → Type 0
  EachNormal end = Unit
  EachNormal (field k v r) = IsNormal k v × EachNormal r

  normal_fields-EachNormal : (f : Fields) → EachNormal f → normal_fields lib f ≡ f
  unfolding normal_fields
  normal_fields-EachNormal end h = refl
  normal_fields-EachNormal (field k v r) h = rw (h.0.0, h.0.1, normal_fields-EachNormal r h.1) refl

  field_count-normal_fields : (f : Fields) → field_count (normal_fields lib f) ≤ field_count f
  unfolding normal_fields field_count
  field_count-normal_fields end = omega arith
  field_count-normal_fields (field k v r) = ground (arith, field_count-normal_fields r)

  field-injective :
      (k l : String) {v w : Json} {r s : Fields} → field k v r ≡ field l w s → (v ≡ w) × (r ≡ s)
  field-injective k l h = (cc, cc)

  pub EachNormal-of : (f : Fields) → normal_fields lib f ≡ f → EachNormal f
  unfolding normal_fields
  EachNormal-of end h = tt
  EachNormal-of (field k v r) h = elim (Bool-cases (str_eq k "processes")) [
    | inl p ↦
        let short : normal_fields lib r ≡ field k v r = ground arith in
        absurd
          (unfold field_count in omega (arith, ap field_count short, field_count-normal_fields r))
    | inr p ↦
        let parts : (normal_section lib k v ≡ v) × (normal_fields lib r ≡ r) =
          field-injective k k (rw (p) at h) in
        ((p, parts.0), EachNormal-of r parts.1)
  ]

  lookup-EachNormal :
      (name : String) (f : Fields) {v : Json}
      → EachNormal f
      → lookup name f ≡ some v
      → IsNormal name v
  unfolding lookup
  lookup-EachNormal name end h e = absurd (cc)
  lookup-EachNormal name (field k x r) {v} h e = elim (Bool-cases (str_eq k name)) [
    | inl g ↦
        let same : k ≡ name = (eq_iff k name).0 g in
        let value : x ≡ v = ground arith in
        subst (λ n. IsNormal n v) same (subst (IsNormal k) value h.0)
    | inr g ↦ lookup-EachNormal name r h.1 (ground arith)
  ]

  delta_sections-EachNormal :
      (names : List String) (after : Fields)
      → EachNormal after
      → EachNormal (delta_sections names after)
  unfolding delta_sections
  delta_sections-EachNormal [] after h = tt
  delta_sections-EachNormal (k ∷ ks) after h = elim (Option-cases (lookup k after)) [
    | inl e ↦ rw (e, delta_sections) (delta_sections-EachNormal ks after h)
    | inr (v, e) ↦
        rw (e, delta_sections) (lookup-EachNormal k after h e, delta_sections-EachNormal ks after h)
  ]

  assign-EachNormal :
      (k : String) (v : Json) (f : Fields) → IsNormal k v → EachNormal f → EachNormal (assign k v f)
  unfolding assign
  assign-EachNormal k v end n h = (n, tt)
  assign-EachNormal k v (field l x r) n h = elim (Bool-cases (str_eq l k)) [
    | inl g ↦
        let same : k ≡ l = sym ((eq_iff l k).0 g) in rw (g) (subst (λ m. IsNormal m v) same n, h.1)
    | inr g ↦ rw (g) (h.0, assign-EachNormal k v r n h.1)
  ]

  update_with-EachNormal :
      (s f : Fields) → EachNormal s → EachNormal f → EachNormal (update_with s f)
  unfolding update_with
  update_with-EachNormal end f g h = h
  update_with-EachNormal (field k v r) f g h =
      update_with-EachNormal r (assign k v f) g.1 (assign-EachNormal k v f g.0 h)

  remove-EachNormal : (k : String) (f : Fields) → EachNormal f → EachNormal (remove k f)
  unfolding remove
  remove-EachNormal k end h = tt
  remove-EachNormal k (field l x r) h = elim (Bool-cases (str_eq l k)) [
    | inl g ↦ rw (g) (remove-EachNormal k r h.1)
    | inr g ↦ rw (g) (h.0, remove-EachNormal k r h.1)
  ]

  remove_all-EachNormal :
      (names : List String) (f : Fields) → EachNormal f → EachNormal (remove_all names f)
  unfolding remove_all
  remove_all-EachNormal [] f h = h
  remove_all-EachNormal (k ∷ ks) f h =
      remove_all-EachNormal ks (remove k f) (remove-EachNormal k f h)

  pub apply_delta-normal :
      (finite : String → Bool) (names : List String) (after held : Fields)
      → normal_fields lib after ≡ after
      → normal_fields lib held ≡ held
      → normal_fields lib
          (apply_delta lib finite (delta_sections names after) (removed_sections names after) held)
        ≡ apply_delta lib finite (delta_sections names after) (removed_sections names after) held
  unfolding apply_delta
  apply_delta-normal finite names after held a h =
      normal_fields-EachNormal
        (remove_all (removed_sections names after) (update_with (delta_sections names after) held))
        (remove_all-EachNormal (removed_sections names after)
          (update_with (delta_sections names after) held)
          (update_with-EachNormal (delta_sections names after) held
            (delta_sections-EachNormal names after (EachNormal-of after a)) (EachNormal-of held h)))
