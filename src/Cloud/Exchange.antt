-- ===== src/Cloud/Exchange.antt =====
-- An inventory at concrete values: a serializer that reads two sections in a fixed order at every
-- level, a delta of one of them, and the service's answer to it.
pub mod Answers
use Prim.Native.String.{◌++◌ as append}
use os_scanner.Prelude.{
  ℕ, ◌*◌, ◌%◌, ◌==◌, String, ◌≡◌, refl, Bool, true, false, Option, none, some, List, [], ◌∷◌, arith,
  ap, sym, ◌∙◌, eq_iff, str_eq, if◌then◌else◌, Bool-cases, inl, inr, length, ◌&&◌, leb, ok, err,
  value_error,
}
use os_scanner.Prelude.Text.{len}
use os_scanner.Json.{
  Json, null, bool, int, negative, real, text, list, object, Items, nil, cons, Fields, end, field,
  lookup, get, same_json,
}
use os_scanner.Storage.Runtime.{Runtime, hash_text}
use os_scanner.Storage.Snapshots.{normalize_snapshot, snapshot_hash, digest}
use os_scanner.Storage.Snapshots.Normal.{normalize_snapshot-again}
use os_scanner.Storage.Snapshots.Changes.{compare_snapshots}
use os_scanner.Storage.Snapshots.Listing.{is_listed, differs, compare_snapshots-is_listed}
use os_scanner.Storage.Scans.{SnapshotRow}
use os_scanner.Storage.Results.Envelope.{with_envelope, mode_part, delta_part}
use os_scanner.Cloud.Bounded.{bounded_json}
use os_scanner.Cloud.Bounded.Limits.{nodes, fits, bounded_json_lem}
use os_scanner.Cloud.Inventory.{InventoryState, InventoryReconstruction, reconstruct_inventory}
use os_scanner.Cloud.Inventory.Digest.{IsAddressed, reconstruct_inventory-IsAddressed}
use os_scanner.Cloud.Inventory.Base.{Applied, reconstruct_inventory-Applied}
use os_scanner.Cloud.Inventory.Restore.{SaysTheSame, ComparesExactly}
use os_scanner.Cloud.Inventory.Accepted.{Fits, diff_fields, reconstruct_inventory-restores}

unfoldable mutual
  pub write : Json → String
  write null = "null"
  write (bool b) = if b then "true" else "false"
  write (int n) = "int"
  write (negative n) = "negative"
  write (real s) = s
  write (text s) = s
  write (list items) = write_items items
  write (object f) = append (shown "os" f) (shown "updates" f)

  pub write_items : Items → String
  write_items nil = ";"
  write_items (cons x xs) = append (write x) (write_items xs)

  pub shown : String → Fields → String
  shown name end = "-"
  shown name (field k v r) = if str_eq k name then write v else shown name r

abbrev pub zeros : String
zeros = "000000000000000000000000000000000000000000000000000000000000000"

-- A hash that tells the length of the text modulo two.
abbrev pub lib : Runtime
lib = record {
  canonical_json = write;
  loads = λ s. none;
  loads_bytes = λ b. none;
  encode = λ s. len s ∷ [];
  sha256 = λ b. elim b [
    | [] ↦ append "0" zeros
    | n ∷ ns ↦ append (if n % 2 == 0 then "a" else "b") zeros
  ];
  casefold = λ s. s;
  upper = λ s. s;
  redact = λ s. s;
}

abbrev pub finite : String → Bool
finite s = true

abbrev pub same_number : Json → Json → Bool
same_number a b = false

abbrev pub updates : Json → Fields
updates value = field "os" (text "linux") (field "updates" (list (cons value nil)) end)

abbrev pub before : Fields
before = updates (text "a")

abbrev pub after : Fields
after = updates (text "bc")

-- The service holds the first snapshot in another order of its keys.
abbrev pub held : Fields
held = field "updates" (list (cons (text "a") nil)) (field "os" (text "linux") end)

abbrev pub state : InventoryState
state = record {
  tenant_id = "t";
  endpoint_id = "e";
  snapshot_hash = append "b" zeros;
  snapshot = held;
  source_scan_id = "s1";
  updated_at = 5;
}

abbrev pub row : SnapshotRow
row = record {
  snapshot_id = 2;
  endpoint_id = "e";
  scan_id = "s2";
  payload_hash = append "a" zeros;
  previous_snapshot_id = some 1;
  schema_version = "1.0";
  policy_version = none;
  scanner_version = none;
  changed = true;
  diff_json = "";
  created_at = "now";
}

shown_lem :
    (name : String) (f : Fields)
    → shown name f ≡ elim (lookup name f) [ none ↦ "-" | some v ↦ write v ]
unfolding write lookup
shown_lem name end = refl
shown_lem name (field k v r) = elim (Bool-cases (str_eq k name)) [
  | inl h ↦ rw (h) refl
  | inr h ↦ rw (h) (shown_lem name r)
]

shown_same :
    (name : String) (f g : Fields)
    → SaysTheSame lib finite same_number f g
    → shown name f ≡ shown name g
shown_same name f g h = ground (arith, shown_lem name f, shown_lem name g, h name)

pub sorts_keys :
    (f g : Fields)
    → SaysTheSame lib finite same_number f g
    → lib.canonical_json (object f) ≡ lib.canonical_json (object g)
unfolding write
sorts_keys f g h = rw (shown_same "os" f g h, shown_same "updates" f g h) refl

pub held_same : SaysTheSame lib finite same_number held before
unfolding write lookup
held_same name = elim (Bool-cases (str_eq "os" name)) [
  | inl h ↦ elim (Bool-cases (str_eq "updates" name)) [
    | inl g ↦
        let bad : false ≡ true = ap (λ x. str_eq "os" x) ((eq_iff "updates" name).0 g) ∙ h in
        absurd (cc)
    | inr g ↦ ground (arith)
  ]
  | inr h ↦ ground (arith)
]

pub exact : ComparesExactly lib finite same_number before after
unfolding write lookup same_json
exact name old new b a same = elim (Bool-cases (str_eq "os" name)) [
  | inl h ↦ ground (arith)
  | inr h ↦ elim (Bool-cases (str_eq "updates" name)) [
    | inl g ↦
        let first : list (cons (text "a") nil) ≡ old = ground arith in
        let second : list (cons (text "bc") nil) ≡ new = ground arith in
        let bad : false ≡ true =
          ap (λ x. same_json same_number x (list (cons (text "bc") nil))) first
          ∙ ap (λ y. same_json same_number old y) second
          ∙ same in
        absurd (cc)
    | inr g ↦ absurd (ground arith)
  ]
]

pub fitting : Fits lib finite same_number before after held
unfolding os_scanner.Storage.Snapshots.normal_fields os_scanner.Storage.Snapshots.normal_section
    os_scanner.Cloud.Inventory.Checks.all_different os_scanner.Storage.Snapshots.Changes.keys
    compare_snapshots os_scanner.Cloud.Inventory.is_bounded os_scanner.Cloud.Inventory.apply_delta
    os_scanner.Storage.Results.Envelope.removed_sections
    os_scanner.Storage.Results.Envelope.delta_sections os_scanner.Cloud.Inventory.is_small
fitting = record {
  after_normal = refl;
  held_normal = refl;
  before_keys = refl;
  after_keys = refl;
  names = (refl, tt);
  few = refl;
  changed = refl;
  bounded = refl;
  small = refl;
}
