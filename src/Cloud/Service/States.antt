-- ===== src/Cloud/Service/States.antt =====
-- The inventory states over histories of calls.
use os_scanner.Prelude.{ℕ, String, ◌≡◌, sym, ◌∙◌, ap, Bool, Option, some, inl, inr, subst}
use os_scanner.Json.{Json}
use os_scanner.Storage.Runtime.{Runtime}
use os_scanner.Cloud.Dict.{at_key}
use os_scanner.Cloud.Inventory.{InventoryState}
use os_scanner.Cloud.Inventory.Digest.{IsAddressed}
use os_scanner.Cloud.Repository.{Repository}
use os_scanner.Cloud.Repository.Ingestion.{same_pair}
use os_scanner.Cloud.Repository.Ingestion.States.{StatesAreAddressed, ingest_scan-IsAddressed}
use os_scanner.Cloud.Service.Untouched.{TaskCall-IsWorking, EnrollmentCall-IsEnrolling}
use os_scanner.Cloud.Service.Ingested.{Ingestion, ingestion}
use os_scanner.Cloud.Service.Cases.{ServiceCall-cases}
use os_scanner.Cloud.Service.History.{ServiceCall, ServiceCalls, no_call, then_call}

module _ (same_number : Json → Json → Bool) (fromisoformat : String → Option (Option ℕ))
    (lib : Runtime) (finite : String → Bool) (isoformat : ℕ → String) where
  abbrev AreAddressed : Repository → Type 0
  AreAddressed s = StatesAreAddressed same_number fromisoformat lib finite s

  kept-AreAddressed :
      (s s' : Repository)
      → s'.inventory_states ≡ s.inventory_states
      → AreAddressed s
      → AreAddressed s'
  kept-AreAddressed s s' kept h tenant_id endpoint_id state found =
      h tenant_id endpoint_id state
        (ap (at_key same_pair (tenant_id, endpoint_id)) (sym kept) ∙ found)

  Ingestion-AreAddressed :
      {s s' : Repository}
      → Ingestion same_number fromisoformat lib finite s s'
      → AreAddressed s
      → AreAddressed s'
  Ingestion-AreAddressed {s} (ingestion now at p scan_id upload tasks key digest e) h =
      subst AreAddressed e (
        ingest_scan-IsAddressed same_number fromisoformat lib finite now at p scan_id upload tasks
          key digest s h)

  ServiceCall-AreAddressed :
      {s s' : Repository}
      → ServiceCall same_number fromisoformat lib finite isoformat s s'
      → AreAddressed s
      → AreAddressed s'
  ServiceCall-AreAddressed {s} {s'} c h =
      elim (ServiceCall-cases same_number fromisoformat lib finite isoformat c) [
        | inl c1 ↦
            kept-AreAddressed s s' (ap (λ x. x.1) (EnrollmentCall-IsEnrolling isoformat c1)) h
        | inr (inl c1) ↦ kept-AreAddressed s s' (ap (λ x. x.1) (TaskCall-IsWorking c1)) h
        | inr (inr (inl c1)) ↦ Ingestion-AreAddressed c1 h
        | inr (inr (inr same)) ↦ kept-AreAddressed s s' (ap (λ x. x.0) same) h
      ]

  service_states :
      {first s : Repository}
      → ServiceCalls same_number fromisoformat lib finite isoformat first s
      → AreAddressed first
      → AreAddressed s
  service_states no_call h = h
  service_states (then_call before c) h = ServiceCall-AreAddressed c (service_states before h)

  -- If every inventory state that a service holds has a normalized snapshot with the hash that the state
  -- carries, as where it holds none, then so it is after any history of calls on the service.
  pub service_states-IsAddressed :
      (first s : Repository) (tenant_id endpoint_id : String) (state : InventoryState)
      → StatesAreAddressed same_number fromisoformat lib finite first
      → ServiceCalls same_number fromisoformat lib finite isoformat first s
      → at_key same_pair (tenant_id, endpoint_id) s.inventory_states ≡ some state
      → IsAddressed lib finite state.snapshot_hash state.snapshot
  service_states-IsAddressed first s tenant_id endpoint_id state h calls found =
      service_states calls h tenant_id endpoint_id state found
