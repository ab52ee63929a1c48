-- ===== src/Cloud/Repository/Reads.antt =====
-- The reading operations of InMemoryRepository.
use os_scanner.Prelude.{
  ℕ, zero, suc, String, Bool, ◌&&◌, Option, none, some, List, [], ◌∷◌, str_eq, leb, ltb, is_none,
  if◌then◌else◌, select, map, sort_by, take, find, Result, ok, err, guard, ◌>>◌, value_error,
  ownership_error,
}
use os_scanner.Prelude.Text.{is_empty}
use os_scanner.Json.{Fields, text, int, object, field, end, assign}
use os_scanner.Cloud.Dict.{at_key}
use os_scanner.Cloud.Inventory.{InventoryState}
use os_scanner.Cloud.Repository.{
  DevicePrincipal, EndpointRecord, ScanRecord, AnalysisTask, TaskKind, osv, depscan, succeeded,
  failed, Repository,
}
use os_scanner.Cloud.Repository.Scans.{task_states, is_analysed, kind_text}
use os_scanner.Cloud.Repository.Tasks.{Tasks}
use os_scanner.Cloud.Repository.Ingestion.{same_pair}
use os_scanner.Storage.Scans.Jobs.{order_by}

pub data ScanReportLookup : Type 0 where
  missing waiting : ScanReportLookup
  ready : Fields → ScanReportLookup

pub record ScanAnalysisInput : Type 0 where
  pub tenant_id : String
  pub endpoint_id : String
  pub scan_id : String
  pub upload : Fields

unfoldable pub get_scan_for_endpoint :
    DevicePrincipal → String → Repository → Result (Option ScanRecord)
unfolding at_key
get_scan_for_endpoint p scan_id s = elim (at_key str_eq scan_id s.scans) [
  | none ↦ ok none
  | some r ↦
      if str_eq r.tenant_id p.tenant_id && str_eq r.endpoint_id p.endpoint_id
      then ok (some r)
      else err ownership_error
]

abbrev pub scan_records : Repository → List ScanRecord
scan_records s = map (λ (entry : String × ScanRecord). entry.1) s.scans

-- records[offset:]
abbrev drop_scans : ℕ → List ScanRecord → List ScanRecord
drop_scans zero rs = rs
drop_scans (suc n) [] = []
drop_scans (suc n) (r ∷ rs) = drop_scans n rs

-- sorted(…, key=created_at, reverse=True), which keeps the order of equal keys
unfoldable pub list_scans : String → ℕ → ℕ → Repository → Result (List ScanRecord)
unfolding order_by select
list_scans tenant_id limit offset s =
    guard (leb 1 limit && leb limit 500) value_error
    >> ok (
        take limit (
          drop_scans offset (
            order_by (λ (a b : ScanRecord). ltb b.created_at a.created_at)
              (select (λ (r : ScanRecord). str_eq r.tenant_id tenant_id) (scan_records s)))))

abbrev drop_endpoints : ℕ → List EndpointRecord → List EndpointRecord
drop_endpoints zero rs = rs
drop_endpoints (suc n) [] = []
drop_endpoints (suc n) (r ∷ rs) = drop_endpoints n rs

unfoldable pub list_endpoints : String → ℕ → ℕ → Repository → Result (List EndpointRecord)
unfolding order_by select
list_endpoints tenant_id limit offset s =
    guard (leb 1 limit && leb limit 500) value_error
    >> ok (
        take limit (
          drop_endpoints offset (
            order_by (λ (a b : EndpointRecord). ltb b.enrolled_at a.enrolled_at)
              (select (λ (r : EndpointRecord). str_eq r.tenant_id tenant_id)
                (map (λ (entry : String × EndpointRecord). entry.1) s.endpoints)))))

unfoldable pub get_scan_for_tenant : String → String → Repository → Option ScanRecord
unfolding at_key
get_scan_for_tenant tenant_id scan_id s = elim (at_key str_eq scan_id s.scans) [
  | none ↦ none
  | some r ↦ if str_eq r.tenant_id tenant_id then some r else none
]

unfoldable pub get_final_report : String → String → Repository → Option Fields
unfolding get_scan_for_tenant
get_final_report tenant_id scan_id s = elim (get_scan_for_tenant tenant_id scan_id s) [
  | none ↦ none
  | some r ↦ r.final_report
]

unfoldable pub get_scan_report : String → String → Repository → ScanReportLookup
unfolding get_scan_for_tenant
get_scan_report tenant_id scan_id s = elim (get_scan_for_tenant tenant_id scan_id s) [
  | none ↦ missing
  | some r ↦ elim r.final_report [ none ↦ waiting | some report ↦ ready report ]
]

unfoldable pub get_inventory_state : String → String → Repository → Option InventoryState
unfolding at_key
get_inventory_state tenant_id endpoint_id s =
    at_key same_pair (tenant_id, endpoint_id) s.inventory_states

unfoldable pub get_scan_analysis_input : String → Repository → Option ScanAnalysisInput
unfolding at_key
get_scan_analysis_input scan_id s = elim (at_key str_eq scan_id s.scans) [
  | none ↦ none
  | some r ↦ elim r.upload [
    | none ↦ none
    | some upload ↦ some (record {
      tenant_id = r.tenant_id;
      endpoint_id = r.endpoint_id;
      scan_id = scan_id;
      upload = upload;
    })
  ]
]

-- kind.lower()
abbrev tool_name : TaskKind → String
tool_name osv = "osv"
tool_name depscan = "depscan"

-- `task.last_error or "analysis task reached dead letter state"`
abbrev failure_text : Option String → String
failure_text none = "analysis task reached dead letter state"
failure_text (some e) = if is_empty e then "analysis task reached dead letter state" else e

-- What one task contributes.
abbrev contribution : AnalysisTask → Option Fields
contribution t = elim t.state [
  | succeeded ↦ t.result
  | failed ↦ some (
      field "tool" (text (tool_name t.kind)) (
        field "status" (text "FAILED") (
          field "error" (text (failure_text t.last_error))
            (field "attempts" (int t.attempts) end))))
  | _ ↦ none
]

-- The results so far stand in the last argument.
unfoldable pub analysis_results : String → Tasks → Fields → Fields
unfolding assign
analysis_results scan_id [] results = results
analysis_results scan_id ((key, t) ∷ rest) results = analysis_results scan_id rest (
    if str_eq t.scan_id scan_id
    then (elim (contribution t) [
      | none ↦ results
      | some result ↦ assign (kind_text t.kind) (object result) results
    ])
    else results)

unfoldable pub list_scan_analysis_results : String → Repository → Fields
unfolding analysis_results
list_scan_analysis_results scan_id s = analysis_results scan_id s.tasks end

-- `record.state == "ANALYZING"` without a report, and its two tasks terminal
unfoldable pub is_ready : Tasks → ScanRecord → Bool
unfolding task_states is_analysed
is_ready tasks r =
    str_eq r.state "ANALYZING"
    && is_none r.final_report
    && is_analysed (task_states r.scan_id tasks end)

unfoldable pub next_scan_ready_for_finalization : Repository → Option String
unfolding is_ready find sort_by
next_scan_ready_for_finalization s =
    elim (find (is_ready s.tasks) (sort_by (λ (r : ScanRecord). r.updated_at) (scan_records s))) [
      | none ↦ none
      | some r ↦ some r.scan_id
    ]
