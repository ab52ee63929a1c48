-- ===== src/Storage/Audit/Examples.antt =====
-- Runs of the audit log on two events.
use os_scanner.Prelude.{
  ◌≢◌, false, str_eq, eq_iff, arith, ap, String, ◌≡◌, refl, true, none, some, List, [], ◌∷◌, ok,
  find, any,
}
use os_scanner.Json.{Json, text, object, get}
use Prim.Native.String.{◌++◌ as append}
use os_scanner.Storage.Identifier.{clean_text}
use os_scanner.Storage.Audit.{
  Content, AuditRow, record_audit_event, verify_audit_chain, document, latest_hash,
}
use os_scanner.Storage.Audit.Chain.{record_audit_event-verifies, record_audit_event_again}
use os_scanner.Storage.Audit.Tamper.{AreCollisionFree, verified_logs_differ}

-- The event id serves as the hash.
abbrev id_hash : Json → String
id_hash (object fields) = elim (get "event_id" fields) [ text s ↦ s | _ ↦ "" ]
id_hash _ = ""

abbrev event : String → Content
event id = record {
  event_id = id;
  event_type = "scan.started";
  actor = none;
  resource_type = none;
  resource_id = none;
  scan_id = none;
  endpoint_id = none;
  authorization_scope_id = none;
  outcome = "SUCCESS";
  details_json = "{}";
  created_at = "t0";
}

abbrev first_event : AuditRow
first_event = record { content = event "e1"; previous_hash = none; event_hash = "e1" }

abbrev second_event : AuditRow
second_event = record { content = event "e2"; previous_hash = some "e1"; event_hash = "e2" }

abbrev log : List AuditRow
log = second_event ∷ first_event ∷ []

second_recorded : record_audit_event id_hash (first_event ∷ []) (event "e2") true ≡ ok ("e2", log)
unfolding record_audit_event clean_text find any document get
second_recorded = refl

first_verifies : verify_audit_chain id_hash (first_event ∷ []) ≡ true
unfolding verify_audit_chain document get
first_verifies = refl

log_verifies : verify_audit_chain id_hash log ≡ true
unfolding verify_audit_chain document get
log_verifies = refl

record_audit_event-verifies_example : verify_audit_chain id_hash log ≡ true
record_audit_event-verifies_example =
    record_audit_event-verifies id_hash (first_event ∷ []) (event "e2") true second_recorded
      first_verifies

record_audit_event_again_example : record_audit_event id_hash log (event "e2") true ≡ ok ("e2", log)
record_audit_event_again_example =
    record_audit_event_again id_hash (first_event ∷ []) (event "e2") true second_recorded

abbrev text_of : Json → String
text_of (text s) = s
text_of _ = ""

-- The ids of the events so far serve as the hash.
abbrev path_hash : Json → String
path_hash (object fields) =
    append (text_of (get "previous_hash" fields)) (text_of (get "event_id" fields))
path_hash _ = ""

-- Two logs with the same newest event and different older ones.
abbrev honest : List AuditRow
honest =
    record { content = event "e2"; previous_hash = some "e1"; event_hash = "e1e2" }
    ∷ record { content = event "e1"; previous_hash = none; event_hash = "e1" }
    ∷ []

abbrev forged : List AuditRow
forged =
    record { content = event "e2"; previous_hash = some "e0"; event_hash = "e0e2" }
    ∷ record { content = event "e0"; previous_hash = none; event_hash = "e0" }
    ∷ []

honest_verifies : verify_audit_chain path_hash honest ≡ true
unfolding verify_audit_chain document get
honest_verifies = refl

forged_verifies : verify_audit_chain path_hash forged ≡ true
unfolding verify_audit_chain document get
forged_verifies = refl

apart : (a b : String) → str_eq a b ≡ false → a ≢ b
apart a b h e = ground (arith, h, e, eq_iff a b)

no_collision : AreCollisionFree path_hash honest forged
unfolding document get
no_collision = (
  ((λ h. absurd (apart "e1e2" "e0e2" refl h)), ((λ h. absurd (apart "e1e2" "e0" refl h)), tt)),
  (((λ h. absurd (apart "e1" "e0e2" refl h)), ((λ h. absurd (apart "e1" "e0" refl h)), tt)), tt),
)

logs_apart : honest ≢ forged
logs_apart e = apart "e1e2" "e0e2" refl (some-injective (ap latest_hash e))
  where
    some-injective : {a b : String} → some a ≡ some b → a ≡ b
    some-injective h = cc

verified_logs_differ_example : latest_hash honest ≢ latest_hash forged
verified_logs_differ_example =
    verified_logs_differ path_hash honest forged no_collision honest_verifies forged_verifies
      logs_apart
