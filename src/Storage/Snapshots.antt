-- ===== src/Storage/Snapshots.antt =====
-- Inventory snapshots and their differences: app/storage/snapshots.py. A snapshot is a JSON object,
-- whose keys are distinct texts. Documents are those that the strict serializer accepts, so
-- `canonical_json` gives a text for each.
pub mod Normal
pub mod Changes
pub mod Listing
use os_scanner.Prelude.{
  ℕ, ◌+◌, suc, String, Bool, true, false, not, ◌&&◌, ◌||◌, Option, none, some, List, [], ◌∷◌, ◌++◌,
  if◌then◌else◌, str_eq, any, select, map, Result, ok, err, type_error, ◌>>=◌, is_none,
}
use os_scanner.Prelude.Text.{text_lt}
use os_scanner.Json.{
  Json, null, bool, int, negative, real, text, list, object, Items, nil, cons, Fields, end, field,
  lookup, assign, get, same_json,
}
use os_scanner.Storage.Runtime.{Runtime, hash_text}

-- name in names
unfoldable pub among : String → List String → Bool
unfolding any
among name names = any (λ (x : String). str_eq x name) names

unfoldable pub is_collection_section : String → Bool
unfolding among
is_collection_section name = among name (
    "software" ∷ "packages" ∷ "services" ∷ "users" ∷ "groups" ∷ "network_interfaces"
    ∷ "listening_ports" ∷ "ports" ∷ "persistence" ∷ "vulnerabilities" ∷ "compliance"
    ∷ "attack_surface" ∷ "browser_extensions" ∷ "certificates" ∷ "updates" ∷ [])

-- The first entry of an association list for a key: `mapping.get(name)` on the constant tables.
unfoldable pub table_get {ℓ} : {A : Type ℓ} → String → List (String × A) → Option A
table_get name [] = none
table_get name ((key, value) ∷ rest) = if str_eq key name then some value else table_get name rest

abbrev event_names : List (String × String)
event_names =
    ("os", "OS_CHANGED")
    ∷ ("operating_system", "OS_CHANGED")
    ∷ ("hardware", "HARDWARE_CHANGED")
    ∷ ("software", "SOFTWARE_CHANGED")
    ∷ ("packages", "SOFTWARE_CHANGED")
    ∷ ("processes", "PROCESSES_CHANGED")
    ∷ ("services", "SERVICES_CHANGED")
    ∷ ("users", "USERS_CHANGED")
    ∷ ("groups", "GROUPS_CHANGED")
    ∷ ("network", "NETWORK_CHANGED")
    ∷ ("network_interfaces", "NETWORK_CHANGED")
    ∷ ("listening_ports", "PORTS_CHANGED")
    ∷ ("ports", "PORTS_CHANGED")
    ∷ ("security", "SECURITY_POSTURE_CHANGED")
    ∷ ("security_posture", "SECURITY_POSTURE_CHANGED")
    ∷ ("persistence", "PERSISTENCE_CHANGED")
    ∷ ("vulnerabilities", "VULNERABILITIES_CHANGED")
    ∷ ("compliance", "COMPLIANCE_CHANGED")
    ∷ ("attack_surface", "ATTACK_SURFACE_CHANGED")
    ∷ ("browser_extensions", "BROWSER_EXTENSIONS_CHANGED")
    ∷ ("certificates", "CERTIFICATES_CHANGED")
    ∷ ("updates", "UPDATES_CHANGED")
    ∷ []

abbrev identity_fields : List (String × List String)
identity_fields =
    ("software", "name" ∷ "vendor" ∷ "architecture" ∷ "package_manager" ∷ [])
    ∷ ("packages", "name" ∷ "ecosystem" ∷ "architecture" ∷ "source" ∷ [])
    ∷ ("services", "name" ∷ [])
    ∷ ("users", "uid" ∷ "username" ∷ "name" ∷ [])
    ∷ ("groups", "gid" ∷ "name" ∷ [])
    ∷ ("network_interfaces", "name" ∷ "mac_address" ∷ [])
    ∷ ("listening_ports", "protocol" ∷ "address" ∷ "port" ∷ [])
    ∷ ("ports", "protocol" ∷ "address" ∷ "port" ∷ [])
    ∷ ("persistence", "kind" ∷ "name" ∷ "location" ∷ "executable_path" ∷ [])
    ∷ (
      "vulnerabilities",
      "id" ∷ "vulnerability_id" ∷ "package" ∷ "package_name" ∷ "installed_version" ∷ [],
    )
    ∷ ("compliance", "rule_id" ∷ "id" ∷ [])
    ∷ ("attack_surface", "asset_type" ∷ "hostname" ∷ [])
    ∷ ("browser_extensions", "browser" ∷ "extension_id" ∷ [])
    ∷ ("certificates", "store" ∷ "thumbprint" ∷ "serial_number" ∷ [])
    ∷ ("updates", "update_id" ∷ [])
    ∷ []

-- _VOLATILE_FIELDS.get(name, frozenset())
unfoldable pub volatile_fields : String → List String
volatile_fields name =
    if str_eq name "endpoint"
    then "last_seen_at" ∷ []
    else if str_eq name "security"
    then "configuration_drift" ∷ "scan_age_days" ∷ "scan_stale" ∷ []
    else if str_eq name "compliance"
    then "scan_id" ∷ "endpoint_id" ∷ "evaluated_at" ∷ "schema_version" ∷ "scanner_version" ∷ []
    else if str_eq name "vulnerabilities"
    then "scan_id" ∷ "endpoint_id" ∷ "detected_at" ∷ "schema_version" ∷ "scanner_version" ∷ []
    else []

-- {key: item for key, item in value.items() if key not in volatile}
unfoldable pub without : List String → Fields → Fields
without volatile end = end
without volatile (field key value rest) =
    let others = without volatile rest in
    if among key volatile then others else field key value others

-- An item of a list without its volatile fields.
abbrev pub stable_item : List String → Json → Json
stable_item volatile (object fields) = object (without volatile fields)
stable_item volatile item = item

unfoldable pub stable_items : List String → Items → Items
stable_items volatile nil = nil
stable_items volatile (cons item rest) =
    cons (stable_item volatile item) (stable_items volatile rest)

-- The value of a section without the fields that change at every scan.
abbrev pub stable : List String → Json → Json
stable [] value = value
stable (name ∷ names) (object fields) = object (without (name ∷ names) fields)
stable (name ∷ names) (list items) = list (stable_items (name ∷ names) items)
stable (name ∷ names) value = value

module _ (lib : Runtime) where
  unfoldable pub digest : Json → String
  unfolding hash_text
  digest value = hash_text lib (lib.canonical_json value)

  -- sorted(value, key=canonical_json), which keeps the order of items with equal keys
  unfoldable pub insert_item : Json → Items → Items
  insert_item x nil = cons x nil
  insert_item x (cons y ys) =
      if text_lt (lib.canonical_json y) (lib.canonical_json x)
      then cons y (insert_item x ys)
      else cons x (cons y ys)

  unfoldable pub sort_items : Items → Items
  unfolding insert_item
  sort_items nil = nil
  sort_items (cons x xs) = insert_item x (sort_items xs)

  abbrev pub sorted_list : Json → Json
  sorted_list (list items) = list (sort_items items)
  sorted_list value = value

  unfoldable pub normal_section : String → Json → Json
  unfolding sort_items is_collection_section volatile_fields
  normal_section name value =
      let kept : Json = stable (volatile_fields name) value in
      if is_collection_section name then sorted_list kept else kept

  unfoldable pub normal_fields : Fields → Fields
  unfolding normal_section
  normal_fields end = end
  normal_fields (field name value rest) =
      let others = normal_fields rest in
      if str_eq name "processes" then others else field name (normal_section name value) others

  unfoldable pub normalize_snapshot : Json → Result Fields
  unfolding normal_fields
  normalize_snapshot (object fields) = ok (normal_fields fields)
  normalize_snapshot _ = err type_error

  unfoldable pub snapshot_hash : Json → Result String
  unfolding normalize_snapshot digest
  snapshot_hash snapshot =
      normalize_snapshot snapshot >>= λ normalized. ok (digest (object normalized))
