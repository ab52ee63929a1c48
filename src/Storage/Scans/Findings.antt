-- ===== src/Storage/Scans/Findings.antt =====
-- Findings and collector states: `save_findings`, `get_finding_first_seen` and
-- `save_collector_status` of app/storage/jobs.py. A duration is a number of microseconds with its
-- sign apart.
use os_scanner.Prelude.{
  ℕ, suc, String, Bool, false, not, ◌&&◌, Option, none, some, List, [], ◌∷◌, ◌++◌, str_eq,
  if◌then◌else◌, ltb, any, find, update, Result, ok, ◌>>=◌, ◌>>◌, guard, value_error,
}
use os_scanner.Prelude.Text.{is_empty}
use os_scanner.Json.{Json, null, text, object, Fields, get, truthy}
use os_scanner.Storage.Runtime.{Runtime, hash_text, parse_json}
use os_scanner.Storage.Identifier.{clean_text, clean_identifier}
use os_scanner.Storage.Snapshots.{among}
use os_scanner.Storage.Scans.{Finding, CollectorState, Tables, Values, str_of, ensure_scan}
use os_scanner.Storage.Scans.Jobs.{get_or}

abbrev pub is_finding : String → Finding → Bool
is_finding id f = str_eq f.finding_id id

abbrev pub severities : List String
severities = "CRITICAL" ∷ "HIGH" ∷ "MEDIUM" ∷ "LOW" ∷ "INFO" ∷ []

abbrev pub collector_statuses : List String
collector_statuses = "SUCCESS" ∷ "PARTIAL" ∷ "FAILED" ∷ "UNAVAILABLE" ∷ "TIMEOUT" ∷ "SKIPPED" ∷ []

-- ON CONFLICT(finding_id) DO UPDATE SET every other column
unfoldable pub upsert_finding : Finding → Tables → Tables
unfolding any update
upsert_finding row t =
    if any (is_finding row.finding_id) t.findings
    then record t {
      findings = update (is_finding row.finding_id) (λ (old : Finding). row) t.findings;
    }
    else record t { findings = t.findings ++ row ∷ [] }

module _ (lib : Runtime) (values : Values) where
  -- One finding of the batch, validated.
  unfoldable pub read_finding : String → Option String → Fields → String → Result Finding
  unfolding clean_identifier clean_text get get_or truthy among
  read_finding scan_id endpoint_id finding now =
      clean_identifier (get "finding_id" finding) 256 >>= λ finding_id.
      clean_identifier (get "rule_id" finding) 256 >>= λ rule_id.
      clean_text (lib.upper (str_of values (get_or "severity" (text "INFO") finding))) 16
      >>= λ severity.
          guard (among severity severities) value_error
          >> (clean_identifier (get_or "status" (text "OPEN") finding) 64 >>= λ status.
              let serialized = lib.canonical_json (object finding) in
              ok (record {
                finding_id = finding_id;
                scan_id = scan_id;
                endpoint_id = endpoint_id;
                rule_id = rule_id;
                severity = severity;
                status = status;
                detected_at =
                    if truthy (get "detected_at" finding)
                    then str_of values (get "detected_at" finding)
                    else now;
                payload_json = serialized;
                payload_hash = hash_text lib serialized;
                updated_at = now;
              }))

  -- The loop of the transaction: a finding that is refused undoes the whole batch.
  unfoldable pub write_findings :
      String → Option String → List Fields → String → Tables → Result (ℕ × Tables)
  unfolding read_finding upsert_finding
  write_findings scan_id endpoint_id [] now t = ok (0, t)
  write_findings scan_id endpoint_id (finding ∷ findings) now t =
      read_finding scan_id endpoint_id finding now >>= λ row.
      write_findings scan_id endpoint_id findings now (upsert_finding row t) >>= λ written.
      ok (suc written.0, written.1)

  -- `clean_identifier(endpoint_id, …) if endpoint_id else None`
  abbrev pub clean_owner : Option String → Result (Option String)
  clean_owner none = ok none
  clean_owner (some id) =
      if is_empty id then ok none else (clean_text id 256 >>= λ cleaned. ok (some cleaned))

  unfoldable pub save_findings :
      String → Option String → List Fields → String → Tables → Result (ℕ × Tables)
  unfolding clean_text write_findings ensure_scan
  save_findings scan_id endpoint_id findings now t = clean_text scan_id 256 >>= λ id.
      clean_owner endpoint_id >>= λ owner.
      write_findings id owner findings now (ensure_scan lib id owner now t)

  -- `value if isinstance(value, str) and value else detected_at or None`
  abbrev first_seen : Json → String → Option String
  first_seen (text value) detected_at =
      if is_empty value
      then (if is_empty detected_at then none else some detected_at)
      else some value
  first_seen value detected_at = if is_empty detected_at then none else some detected_at

  abbrev pub payload_time : Json → Json
  payload_time (object payload) =
      if truthy (get "first_seen_at" payload)
      then get "first_seen_at" payload
      else get "detected_at" payload
  payload_time payload = null

  unfoldable pub get_finding_first_seen : String → Tables → Result (Option String)
  unfolding clean_text find get truthy
  get_finding_first_seen finding_id t = clean_text finding_id 256 >>= λ id.
      elim (find (is_finding id) t.findings) [
        | none ↦ ok none
        | some row ↦ parse_json lib row.payload_json >>= λ payload.
            ok (first_seen (payload_time payload) row.detected_at)
      ]

  -- The arguments of `save_collector_status` after the scan.
  pub record CollectorReport : Type 0 where
    pub collector : String
    pub status : String
    pub details : Fields
    pub tool_version : Option String
    pub started_at : Option String
    pub completed_at : Option String
    pub duration : Option (Bool × ℕ)

  -- `duration_seconds is not None and duration_seconds < 0`
  abbrev is_negative : Option (Bool × ℕ) → Bool
  is_negative none = false
  is_negative (some (below_zero, micros)) = below_zero && ltb 0 micros

  abbrev magnitude : Option (Bool × ℕ) → Option ℕ
  magnitude none = none
  magnitude (some (below_zero, micros)) = some micros

  abbrev pub is_state_of : String → String → CollectorState → Bool
  is_state_of scan_id collector c = str_eq c.scan_id scan_id && str_eq c.collector collector

  -- ON CONFLICT(scan_id,collector) DO UPDATE SET every other column
  unfoldable pub upsert_collector : CollectorState → Tables → Tables
  unfolding any update
  upsert_collector row t =
      if any (is_state_of row.scan_id row.collector) t.collectors
      then record t {
        collectors =
            update (is_state_of row.scan_id row.collector) (λ (old : CollectorState). row)
              t.collectors;
      }
      else record t { collectors = t.collectors ++ row ∷ [] }

  unfoldable pub save_collector_status : String → CollectorReport → String → Tables → Result Tables
  unfolding clean_text among ensure_scan upsert_collector
  save_collector_status scan_id report now t = clean_text scan_id 256 >>= λ id.
      clean_text report.collector 128 >>= λ collector.
      clean_text (lib.upper report.status) 16 >>= λ status.
      guard (among status collector_statuses) value_error
      >> guard (not (is_negative report.duration)) value_error
      >> ok (
          upsert_collector
            (record {
              scan_id = id;
              collector = collector;
              status = status;
              tool_version = report.tool_version;
              started_at = report.started_at;
              completed_at = report.completed_at;
              duration_micros = magnitude report.duration;
              details_json = lib.canonical_json (object report.details);
            })
            (ensure_scan lib id none now t))
