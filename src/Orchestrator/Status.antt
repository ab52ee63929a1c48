-- ===== src/Orchestrator/Status.antt =====
-- The states of collectors in app/models/enums.py, and collector_state and overall_status of
-- app/orchestrator/status.py. Of CollectorStatus, the fields that overall_status does not read are
-- left out, but for the name.
use os_scanner.Prelude.{String, Bool, true, false, List, [], ◌∷◌, str_eq, if◌then◌else◌, any}

pub data CollectorState : Type 0 where
  success partial failed unavailable timeout skipped : CollectorState

-- The states that a finished scan can have, of OverallStatus.
pub data OverallStatus : Type 0 where
  success partial failed : OverallStatus

pub record CollectorStatus : Type 0 where
  pub name : String
  pub status : CollectorState

-- The values of the enumeration.
unfoldable pub state_text : CollectorState → String
state_text CollectorState.success = "SUCCESS"
state_text CollectorState.partial = "PARTIAL"
state_text CollectorState.failed = "FAILED"
state_text unavailable = "UNAVAILABLE"
state_text timeout = "TIMEOUT"
state_text skipped = "SKIPPED"

-- An unknown text is a failure.
unfoldable pub collector_state : String → CollectorState
collector_state raw =
    if str_eq raw "SUCCESS"
    then CollectorState.success
    else if str_eq raw "PARTIAL"
    then CollectorState.partial
    else if str_eq raw "FAILED"
    then CollectorState.failed
    else if str_eq raw "UNAVAILABLE"
    then unavailable
    else if str_eq raw "TIMEOUT"
    then timeout
    else if str_eq raw "SKIPPED"
    then skipped
    else CollectorState.failed

abbrev pub is_skipped : CollectorState → Bool
is_skipped skipped = true
is_skipped _ = false

abbrev pub is_success : CollectorState → Bool
is_success CollectorState.success = true
is_success _ = false

-- state in {SUCCESS, PARTIAL}
abbrev pub is_usable : CollectorState → Bool
is_usable CollectorState.success = true
is_usable CollectorState.partial = true
is_usable _ = false

abbrev pub is_empty : List CollectorState → Bool
is_empty [] = true
is_empty (s ∷ ss) = false

unfoldable pub all_success : List CollectorState → Bool
all_success [] = true
all_success (s ∷ ss) = elim (is_success s) [ true ↦ all_success ss | false ↦ false ]

-- [status.status for status in statuses if status.status is not CollectorState.SKIPPED]
unfoldable pub materialized : List CollectorStatus → List CollectorState
materialized [] = []
materialized (s ∷ ss) =
    let rest = materialized ss in if is_skipped s.status then rest else s.status ∷ rest

unfoldable pub overall_status : List CollectorStatus → OverallStatus
unfolding materialized all_success any
overall_status statuses =
    if is_empty (materialized statuses)
    then OverallStatus.failed
    else if all_success (materialized statuses)
    then OverallStatus.success
    else if any is_usable (materialized statuses)
    then OverallStatus.partial
    else OverallStatus.failed
