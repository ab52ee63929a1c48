-- ===== src/Orchestrator/Examples.antt =====
-- The status of a scan of three collectors.
use os_scanner.Prelude.{◌≡◌, refl, [], ◌∷◌}
use mathlib.Core.List.{Permᴰ}
use os_scanner.Orchestrator.Status.{
  CollectorState, timeout, skipped, unavailable, OverallStatus, CollectorStatus, state_text,
  collector_state, overall_status,
}
use os_scanner.Orchestrator.Order.{verdict, successes, partials, losses, overall_status-verdict}

abbrev native : CollectorStatus
native = record { name = "native.users"; status = CollectorState.success }

abbrev trivy : CollectorStatus
trivy = record { name = "trivy"; status = timeout }

abbrev lynis : CollectorStatus
lynis = record { name = "lynis"; status = skipped }

collector_state-state_text : (s : CollectorState) → collector_state (state_text s) ≡ s
unfolding collector_state state_text
collector_state-state_text CollectorState.success = refl
collector_state-state_text CollectorState.partial = refl
collector_state-state_text CollectorState.failed = refl
collector_state-state_text unavailable = refl
collector_state-state_text timeout = refl
collector_state-state_text skipped = refl

native_alone : overall_status (native ∷ lynis ∷ []) ≡ OverallStatus.success
unfolding overall_status
native_alone = refl

overall_status-verdict_example :
    (overall_status (native ∷ trivy ∷ lynis ∷ [])
      ≡ verdict
          (successes (native ∷ trivy ∷ lynis ∷ []))
          (partials (native ∷ trivy ∷ lynis ∷ []))
          (losses (native ∷ trivy ∷ lynis ∷ [])))
    × (overall_status (trivy ∷ native ∷ lynis ∷ []) ≡ overall_status (native ∷ trivy ∷ lynis ∷ []))
overall_status-verdict_example =
    overall_status-verdict (native ∷ trivy ∷ lynis ∷ []) (trivy ∷ native ∷ lynis ∷ [])
      (Permᴰ.swap refl refl)
