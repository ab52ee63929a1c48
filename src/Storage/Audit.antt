-- ===== src/Storage/Audit.antt =====
-- app/storage/audit.py: the append-only, hash-chained audit log. The table is kept newest first;
-- `ORDER BY audit_id` reads it in reverse.
pub mod Chain
pub mod Tamper
pub mod Examples
use mathlib.Core.List.{reverse}
use os_scanner.Prelude.{
  String, Bool, true, false, ◌&&◌, Option, none, some, List, [], ◌∷◌, str_eq, if◌then◌else◌, find,
  any, Result, ok, err, idempotency_conflict, integrity_error, ◌>>=◌,
}
use os_scanner.Json.{Json, null, text, object, end, field}
use os_scanner.Storage.Identifier.{clean_text}

-- The dictionary `content`: every column but the chain's own two.
pub record Content : Type 0 where
  pub event_id : String
  pub event_type : String
  pub actor : Option String
  pub resource_type : Option String
  pub resource_id : Option String
  pub scan_id : Option String
  pub endpoint_id : Option String
  pub authorization_scope_id : Option String
  pub outcome : String
  pub details_json : String
  pub created_at : String

pub record AuditRow : Type 0 where
  pub content : Content
  pub open content use *
  pub previous_hash : Option String
  pub event_hash : String

-- `==` on two optional texts.
abbrev pub same : Option String → Option String → Bool
same none none = true
same none (some b) = false
same (some a) none = false
same (some a) (some b) = str_eq a b

abbrev pub optional : Option String → Json
optional none = null
optional (some s) = text s

-- comparable == content
unfoldable pub content_eq : Content → Content → Bool
content_eq a b =
    str_eq a.event_id b.event_id
    && str_eq a.event_type b.event_type
    && same a.actor b.actor
    && same a.resource_type b.resource_type
    && same a.resource_id b.resource_id
    && same a.scan_id b.scan_id
    && same a.endpoint_id b.endpoint_id
    && same a.authorization_scope_id b.authorization_scope_id
    && str_eq a.outcome b.outcome
    && str_eq a.details_json b.details_json
    && str_eq a.created_at b.created_at

-- {"previous_hash": previous_hash, **content}
unfoldable pub document : Option String → Content → Json
document previous c = object (
    field "previous_hash" (optional previous) (
      field "event_id" (text c.event_id) (
        field "event_type" (text c.event_type) (
          field "actor" (optional c.actor) (
            field "resource_type" (optional c.resource_type) (
              field "resource_id" (optional c.resource_id) (
                field "scan_id" (optional c.scan_id) (
                  field "endpoint_id" (optional c.endpoint_id) (
                    field "authorization_scope_id" (optional c.authorization_scope_id) (
                      field "outcome" (text c.outcome) (
                        field "details_json" (text c.details_json)
                          (field "created_at" (text c.created_at) end))))))))))))

abbrev pub latest_hash : List AuditRow → Option String
latest_hash [] = none
latest_hash (r ∷ rs) = some r.event_hash

-- The event that the caller asks to record, its identifiers cleaned.
unfoldable pub clean_content : Content → Result Content
clean_content c = do
  event_type ← clean_text c.event_type 128
  outcome ← clean_text c.outcome 64
  event_id ← clean_text c.event_id 256
  ok (record c { event_type = event_type; outcome = outcome; event_id = event_id })

-- `hash_document d` is `_hash_text(canonical_json(d))`.
module _ (hash_document : Json → String) where
  -- The transaction of `record_audit_event`.
  unfoldable pub insert_event : List AuditRow → Content → Bool → Result (String × List AuditRow)
  insert_event rows content return_existing =
      elim (find (λ r. str_eq r.event_id content.event_id) rows) [
        | some existing ↦
            if content_eq existing.content content
            then ok (existing.event_hash, rows)
            else if return_existing
            then ok (existing.event_hash, rows)
            else err idempotency_conflict
        | none ↦
            let previous = latest_hash rows in
            let event_hash = hash_document (document previous content) in
            -- event_hash TEXT NOT NULL UNIQUE
            if any (λ r. str_eq r.event_hash event_hash) rows
            then err integrity_error
            else ok (
              event_hash,
              record { content = content; previous_hash = previous; event_hash = event_hash }
                  ∷ rows,
            )
      ]

  unfoldable pub record_audit_event :
      List AuditRow → Content → Bool → Result (String × List AuditRow)
  unfolding insert_event clean_content
  record_audit_event rows content return_existing = do
    cleaned ← clean_content content
    insert_event rows cleaned return_existing

  -- The loop of `verify_audit_chain` over the rows, oldest first.
  unfoldable pub verify_from : Option String → List AuditRow → Bool
  verify_from previous [] = true
  verify_from previous (r ∷ rs) =
      let expected = hash_document (document previous r.content) in
      same r.previous_hash previous
      && str_eq r.event_hash expected
      && verify_from (some r.event_hash) rs

  unfoldable pub verify_audit_chain : List AuditRow → Bool
  unfolding verify_from
  verify_audit_chain rows = verify_from none (reverse rows)
