-- ===== src/Cloud/Inventory/Restore.antt =====
-- The round trip of an inventory: the comparison of two snapshots, the delta and its application. Two
-- documents say the same if the serializer, which sorts the keys of each object, writes the same text
-- for them.
use os_scanner.Prelude.{
  String, ◌≡◌, refl, Bool, true, false, Option, none, some, List, arith, ap, sym, ◌∙◌, Bool-cases,
  Option-cases, inl, inr,
}
use os_scanner.Json.{Json, Fields, lookup, same_json}
use os_scanner.Storage.Runtime.{Runtime}
use os_scanner.Storage.Snapshots.Changes.{compare_snapshots}
use os_scanner.Storage.Snapshots.Listing.{differs, compare_snapshots-is_listed}
use os_scanner.Storage.Results.Envelope.{delta_sections, removed_sections}
use os_scanner.Cloud.Inventory.{apply_delta}
use os_scanner.Cloud.Inventory.Delta.{lookup-apply_delta}
use os_scanner.Cloud.Inventory.Names.{changed_names, among-changed_names}

module _ (lib : Runtime) (finite : String → Bool) (same_number : Json → Json → Bool) where
  abbrev pub written : Option Json → Option String
  written none = none
  written (some v) = some (lib.canonical_json v)

  -- Two snapshots have the same sections, with the same text.
  abbrev pub SaysTheSame : Fields → Fields → Type 0
  SaysTheSame f g = (name : String) → written (lookup name f) ≡ written (lookup name g)

  -- Values of a section that Python's `==` takes for equal have the same text.
  abbrev pub ComparesExactly : Fields → Fields → Type 0
  ComparesExactly before after =
      (name : String) (old new : Json)
      → lookup name before ≡ some old
      → lookup name after ≡ some new
      → same_json same_number old new ≡ true
      → lib.canonical_json old ≡ lib.canonical_json new

  abbrev pub names_of : Fields → Fields → List String
  names_of before after = changed_names (compare_snapshots lib same_number (some before) after)

  -- The snapshot that the delta makes of the held one.
  abbrev pub restored : Fields → Fields → Fields → Fields
  restored before after held =
      apply_delta lib finite (delta_sections (names_of before after) after)
        (removed_sections (names_of before after) after) held

  unlisted-same :
      (name : String) (before after held : Fields)
      → SaysTheSame held before
      → ComparesExactly before after
      → differs lib same_number (lookup name before) (lookup name after) ≡ false
      → written (lookup name held) ≡ written (lookup name after)
  unlisted-same name before after held h exact d = elim (Option-cases (lookup name before)) [
    | inl b ↦ elim (Option-cases (lookup name after)) [
      | inl a ↦ h name ∙ ap written (b ∙ sym a)
      | inr (new, a) ↦ absurd (ground arith)
    ]
    | inr (old, b) ↦ elim (Option-cases (lookup name after)) [
      | inl a ↦ absurd (ground arith)
      | inr (new, a) ↦
          let equal : same_json same_number old new ≡ true = ground arith in
          h name ∙ ap written b ∙ ap some (exact name old new b a equal) ∙ sym (ap written a)
    ]
  ]

  -- The service that applies the delta between two snapshots to one that says the same as the first
  -- gets one that says the same as the second, if Python's `==` took no values with different texts
  -- for equal.
  pub restored-SaysTheSame :
      (before after held : Fields)
      → SaysTheSame held before
      → ComparesExactly before after
      → SaysTheSame (restored before after held) after
  restored-SaysTheSame before after held h exact name =
      let listed =
        among-changed_names lib same_number name
          (compare_snapshots lib same_number (some before) after)
        ∙ compare_snapshots-is_listed lib same_number name before after in
      let at = lookup-apply_delta lib finite name (names_of before after) after held in
      elim (Bool-cases (differs lib same_number (lookup name before) (lookup name after))) [
        | inl d ↦ ap written (at ∙ rw (listed, d) refl)
        | inr d ↦
            ap written (at ∙ rw (listed, d) refl) ∙ unlisted-same name before after held h exact d
      ]
