-- ===== src/Cloud/Evidence.antt =====
-- An upload of evidence at concrete values: the delta of Exchange, sent for a dispatched scan.
use Prim.Native.String.{◌++◌ as append}
use os_scanner.Prelude.{
  ℕ, String, ◌≡◌, refl, Option, none, some, [], ◌∷◌, ok, err, Error, Bool-cases, inl, inr, arith,
  ownership_error, subst,
}
use os_scanner.Json.{Json, text, object, Fields, end, field}
use os_scanner.Cloud.Dict.{at_key}
use os_scanner.Cloud.Repository.{
  DevicePrincipal, ScanRecord, AnalysisTask, osv, pending, Repository, scan, Answer,
}
use os_scanner.Cloud.Inventory.{InventoryState}
use os_scanner.Cloud.Inventory.Digest.{IsAddressed}
use os_scanner.Cloud.Repository.Ingestion.{ingest_scan, same_pair}
use os_scanner.Cloud.Repository.Ingestion.States.{StatesAreAddressed}
use os_scanner.Cloud.Service.History.{ingest, no_call, then_call}
use os_scanner.Cloud.Service.States.{service_states-IsAddressed}
use os_scanner.Cloud.Repository.Ingestion.Atomic.{ingest_scan-refused, ingest_scan_once}
use os_scanner.Cloud.Exchange.{lib, zeros, finite, same_number, state, row, write}
use os_scanner.Cloud.Exchange.Answers.{part, accepted, held-IsAddressed}
use os_scanner.Storage.Results.Envelope.{with_envelope}

abbrev pub fromisoformat : String → Option (Option ℕ)
fromisoformat s = some (some 100)

abbrev owner : DevicePrincipal
owner = record { tenant_id = "t"; endpoint_id = "e"; credential_id = "c"; generation = 1 }

abbrev stranger : DevicePrincipal
stranger = record owner { endpoint_id = "x" }

abbrev pub dispatched : ScanRecord
dispatched = record {
  tenant_id = "t";
  endpoint_id = "e";
  scan_id = "s2";
  job_id = "j";
  state = "DISPATCHED";
  job_document = field "authorization" (object (field "scope_id" (text "scope") end)) (
      field "deadline" (text "soon")
        (field "scan_type" (text "FULL") (field "policy_id" (text "base") end)));
  created_at = 1;
  updated_at = 2;
  upload = none;
  terminal_status = none;
  final_report = none;
}

abbrev pub task : AnalysisTask
task = record {
  task_id = "s2:osv";
  tenant_id = "t";
  endpoint_id = "e";
  scan_id = "s2";
  kind = osv;
  state = pending;
  attempts = 0;
  payload = end;
  created_at = 9;
  updated_at = 9;
  available_at = 9;
  lease_expires_at = none;
  leased_by = none;
  last_error = none;
  result = none;
}

abbrev upload : Fields
upload =
    field "result"
      (object (
        field "scan_id" (text "s2") (
          field "endpoint_id" (text "e") (
            field "scan_type" (text "FULL") (
              field "authorization_scope_id" (text "scope")
                (field "policy_id" (text "base") (field "status" (text "SUCCESS") end)))))))
      (field "inventory_sync" (object (with_envelope row (some (append "b" zeros)) part)) end)

abbrev pub tables : Repository
tables = record {
  endpoints = [];
  credentials = [];
  enrollment_grants = [];
  scans = ("s2", dispatched) ∷ [];
  tasks = [];
  audit_events = [];
  rejections = [];
  inventory_states = (("t", "e"), state) ∷ [];
  idempotency = [];
}

some-injective : {a b : InventoryState} → some a ≡ some b → a ≡ b
some-injective h = cc

tables_addressed : StatesAreAddressed same_number fromisoformat lib finite tables
unfolding at_key
tables_addressed tenant_id endpoint_id found e =
    elim (Bool-cases (same_pair ("t", "e") (tenant_id, endpoint_id))) [
      | inl h ↦
          subst (λ s. IsAddressed lib finite s.snapshot_hash s.snapshot)
            (some-injective (rw h at e)) held-IsAddressed
      | inr h ↦ absurd (ground arith)
    ]

refused :
    ingest_scan same_number fromisoformat lib finite 9 9 stranger "s2" upload
      (task ∷ [])
      "k"
      "d"
      tables
    ≡ (err ownership_error, tables)
unfolding ingest_scan
refused = refl

ingest_scan-refused_example : tables ≡ tables
ingest_scan-refused_example =
    ingest_scan-refused same_number fromisoformat lib finite 9 9 stranger "s2" upload (task ∷ [])
      "k" "d" tables refused

abbrev answer : Answer
answer =
    ingest_scan same_number fromisoformat lib finite 9 9 owner "s2" upload (task ∷ []) "k" "d"
      tables

abbrev evidence : ScanRecord
evidence = record dispatched {
  state = "ANALYZING";
  upload = some (os_scanner.Json.assign "inventory_sync" (object accepted.inventory_sync) upload);
  updated_at = 9;
}

answered :
    ingest_scan same_number fromisoformat lib finite 9 9 owner "s2" upload
      (task ∷ [])
      "k"
      "d"
      tables
    ≡ (ok (scan evidence), answer.1)
unfolding ingest_scan os_scanner.Storage.Results.Envelope.delta_sections
    os_scanner.Storage.Results.Envelope.texts os_scanner.Storage.Results.Envelope.removed_sections
    write
answered = refl

-- The same endpoint sends other evidence under another key.
ingest_scan_once_example :
    (error : Error) × (ingest_scan same_number fromisoformat lib finite 12 12 owner "s2" end []
        "other" "d2" answer.1
      ≡ (err error, answer.1))
unfolding at_key ingest_scan os_scanner.Storage.Results.Envelope.delta_sections
    os_scanner.Storage.Results.Envelope.texts os_scanner.Storage.Results.Envelope.removed_sections
    write
ingest_scan_once_example =
    ingest_scan_once same_number fromisoformat lib finite 9 9 owner "s2" upload (task ∷ []) "k" "d"
      tables 12 12 owner end [] "other" "d2" refl answered refl

service_states-IsAddressed_example :
    IsAddressed lib finite accepted.state.snapshot_hash accepted.state.snapshot
unfolding at_key ingest_scan os_scanner.Storage.Results.Envelope.delta_sections
    os_scanner.Storage.Results.Envelope.texts os_scanner.Storage.Results.Envelope.removed_sections
    write
service_states-IsAddressed_example =
    service_states-IsAddressed same_number fromisoformat lib finite (λ n. "now") tables answer.1 "t"
      "e" accepted.state tables_addressed
      (then_call no_call (ingest 9 9 owner "s2" upload (task ∷ []) "k" "d" refl)) refl
