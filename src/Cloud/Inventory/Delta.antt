-- ===== src/Cloud/Inventory/Delta.antt =====
-- What a delta does to each section of the state that the service holds.
use os_scanner.Prelude.{
  String, ◌≡◌, refl, Bool, Option, false, not, ◌&&◌, none, some, List, [], ◌∷◌, arith, str_eq,
  eq_iff, if◌then◌else◌, Bool-cases, Option-cases, inl, inr, ap, sym, ◌∙◌, any,
}
use os_scanner.Json.{Json, Fields, end, field, lookup, assign, remove}
use os_scanner.Storage.Runtime.{Runtime}
use os_scanner.Storage.Snapshots.{among}
use os_scanner.Storage.Snapshots.Changes.{has}
use os_scanner.Storage.Results.Envelope.{delta_sections, removed_sections}
use os_scanner.Cloud.Inventory.Checks.{update_with, remove_all}
use os_scanner.Cloud.Inventory.{apply_delta}

pub lookup-assign :
    (name key : String) (v : Json) (f : Fields)
    → lookup name (assign key v f) ≡ (if str_eq key name then some v else lookup name f)
unfolding lookup assign
lookup-assign name key v end = refl
lookup-assign name key v (field k x r) = elim (Bool-cases (str_eq k key)) [
  | inl h ↦
      let same : k ≡ key = (eq_iff k key).0 h in
      rw (h) (ground (arith, ap (λ (t : String). str_eq t name) same))
  | inr h ↦ rw (h) (elim (Bool-cases (str_eq k name)) [
    | inl g ↦
        let same : k ≡ name = (eq_iff k name).0 g in
        let other : str_eq key name ≡ false = elim (Bool-cases (str_eq key name)) [
          | inl w ↦
              let t : k ≡ key = same ∙ sym ((eq_iff key name).0 w) in
              absurd (ground (arith, eq_iff k key))
          | inr w ↦ w
        ] in
        rw (g, other) refl
    | inr g ↦ rw (g) (lookup-assign name key v r)
  ])
]

pub lookup-remove :
    (name key : String) (f : Fields)
    → lookup name (remove key f) ≡ (if str_eq key name then none else lookup name f)
unfolding lookup remove
lookup-remove name key end = ground arith
lookup-remove name key (field k x r) = elim (Bool-cases (str_eq k key)) [
  | inl h ↦
      let same : k ≡ key = (eq_iff k key).0 h in
      ground (arith, lookup-remove name key r, ap (λ (t : String). str_eq t name) same)
  | inr h ↦ elim (Bool-cases (str_eq k name)) [
    | inl g ↦ elim (Bool-cases (str_eq key name)) [
      | inl w ↦
          let t : k ≡ key = (eq_iff k name).0 g ∙ sym ((eq_iff key name).0 w) in
          absurd (ground (arith, eq_iff k key))
      | inr w ↦ ground (arith, lookup-remove name key r)
    ]
    | inr g ↦ ground (arith, lookup-remove name key r)
  ]
]

pub lookup-remove_all :
    (name : String) (names : List String) (f : Fields)
    → lookup name (remove_all names f) ≡ (if among name names then none else lookup name f)
unfolding remove_all among any
lookup-remove_all name [] f = refl
lookup-remove_all name (k ∷ ks) f =
    ground (arith, lookup-remove_all name ks (remove k f), lookup-remove name k f)

pub lookup-update_with :
    (name : String) (names : List String) (after held : Fields)
    → lookup name (update_with (delta_sections names after) held)
      ≡ (if among name names && has name after then lookup name after else lookup name held)
unfolding update_with delta_sections among any has
lookup-update_with name [] after held = refl
lookup-update_with name (k ∷ ks) after held = elim (Option-cases (lookup k after)) [
  | inl e ↦
      rw (e, delta_sections)
        (elim (Bool-cases (str_eq k name)) [
          | inl g ↦
              let same : k ≡ name = (eq_iff k name).0 g in
              ground (
                arith,
                lookup-update_with name ks after held,
                ap (λ (t : String). lookup t after) same,
              )
          | inr g ↦ ground (arith, lookup-update_with name ks after held)
        ])
  | inr (v, e) ↦
      rw (e, delta_sections)
        (elim (Bool-cases (str_eq k name)) [
          | inl g ↦
              let same : k ≡ name = (eq_iff k name).0 g in
              ground (
                arith,
                lookup-update_with name ks after (assign k v held),
                lookup-assign name k v held,
                ap (λ (t : String). lookup t after) same,
              )
          | inr g ↦ ground (
            arith,
            lookup-update_with name ks after (assign k v held),
            lookup-assign name k v held,
          )
        ])
]

pub among-removed_sections :
    (name : String) (names : List String) (after : Fields)
    → among name (removed_sections names after) ≡ (among name names && not (has name after))
unfolding among any removed_sections
among-removed_sections name [] after = refl
among-removed_sections name (k ∷ ks) after = elim (Bool-cases (str_eq k name)) [
  | inl g ↦
      let same : k ≡ name = (eq_iff k name).0 g in
      ground (arith, among-removed_sections name ks after, ap (λ (t : String). has t after) same)
  | inr g ↦ ground (arith, among-removed_sections name ks after)
]

-- A delta that lists some sections gives them their values in the new snapshot, or removes them, and
-- leaves every other section as it was held.
pub lookup-apply_delta :
    (lib : Runtime) (finite : String → Bool) (name : String) (names : List String)
    (after held : Fields)
    → lookup name
        (apply_delta lib finite (delta_sections names after) (removed_sections names after) held)
      ≡ (if among name names then lookup name after else lookup name held)
unfolding apply_delta has
lookup-apply_delta lib finite name names after held = ground (
  arith,
  lookup-remove_all name (removed_sections names after)
      (update_with (delta_sections names after) held),
  lookup-update_with name names after held,
  among-removed_sections name names after,
)

-- The value that an object gives to a name, or the one of before where it does not have the name.
abbrev pub latest : String → Fields → Option Json → Option Json
latest name end before = before
latest name (field key value rest) before =
    latest name rest (if str_eq key name then some value else before)

lookup-update_with-latest :
    (name : String) (sections held : Fields)
    → lookup name (update_with sections held) ≡ latest name sections (lookup name held)
unfolding update_with
lookup-update_with-latest name end held = refl
lookup-update_with-latest name (field key value rest) held =
    lookup-update_with-latest name rest (assign key value held)
    ∙ ap (latest name rest) (lookup-assign name key value held)

-- A section of the result of a delta: gone where it is listed as removed, and otherwise the new one, or
-- the one held where the delta does not have it.
abbrev pub IsMerged : Fields → List String → Fields → Fields → Type 0
IsMerged sections removed held merged =
    (name : String)
    → lookup name merged
      ≡ (if among name removed then none else latest name sections (lookup name held))

pub apply_delta-IsMerged :
    (lib : Runtime) (finite : String → Bool) (sections : Fields) (removed : List String)
    (held : Fields)
    → IsMerged sections removed held (apply_delta lib finite sections removed held)
unfolding apply_delta
apply_delta-IsMerged lib finite sections removed held name =
    lookup-remove_all name removed (update_with sections held)
    ∙ ap (λ x. if among name removed then none else x)
        (lookup-update_with-latest name sections held)
