-- ===== src/Cloud/Service/Grants.antt =====
-- Consumed enrollment grants over histories of calls.
use os_scanner.Prelude.{ℕ, String, ◌≡◌, ◌∙◌, ap, Bool, Option, some, inl, inr, str_eq}
use os_scanner.Json.{Json}
use os_scanner.Storage.Runtime.{Runtime}
use os_scanner.Cloud.Dict.{at_key}
use os_scanner.Cloud.Repository.{EnrollmentGrantRecord, Repository}
use os_scanner.Cloud.Repository.Enrollment.Grants.{grant_of, Call-keeps}
use os_scanner.Cloud.Service.Untouched.{TaskCall-IsWorking}
use os_scanner.Cloud.Service.Ingested.{Ingestion-IsIngesting, IsIngesting-grants}
use os_scanner.Cloud.Service.Cases.{ServiceCall-cases}
use os_scanner.Cloud.Service.History.{ServiceCall, ServiceCalls, no_call, then_call}

same_grant :
    (hash : String) (g : EnrollmentGrantRecord) (s s' : Repository)
    → s'.enrollment_grants ≡ s.enrollment_grants
    → grant_of hash s ≡ some g
    → grant_of hash s' ≡ some g
same_grant hash g s s' same found = ap (at_key str_eq hash) same ∙ found

module _ (same_number : Json → Json → Bool) (fromisoformat : String → Option (Option ℕ))
    (lib : Runtime) (finite : String → Bool) (isoformat : ℕ → String) where
  ServiceCall-keeps :
      (hash : String) (g : EnrollmentGrantRecord) (used : ℕ) {s s' : Repository}
      → g.consumed_at ≡ some used
      → ServiceCall same_number fromisoformat lib finite isoformat s s'
      → grant_of hash s ≡ some g
      → grant_of hash s' ≡ some g
  ServiceCall-keeps hash g used {s} {s'} consumed c found =
      elim (ServiceCall-cases same_number fromisoformat lib finite isoformat c) [
        | inl c1 ↦ Call-keeps hash g used consumed isoformat c1 found
        | inr (inl c1) ↦ same_grant hash g s s' (ap (λ x. x.2) (TaskCall-IsWorking c1)) found
        | inr (inr (inl c1)) ↦
            same_grant hash g s s'
              (IsIngesting-grants same_number fromisoformat
                (Ingestion-IsIngesting same_number fromisoformat lib finite c1))
              found
        | inr (inr (inr same)) ↦ same_grant hash g s s' (ap (λ x. x.1) same) found
      ]

  -- A consumed grant keeps its record, and so the endpoint that it enrolled, through every later call on
  -- the service, whether it answers or raises.
  pub consumed_grant_kept :
      (hash : String) (g : EnrollmentGrantRecord) (used : ℕ) {s s' : Repository}
      → g.consumed_at ≡ some used
      → ServiceCalls same_number fromisoformat lib finite isoformat s s'
      → grant_of hash s ≡ some g
      → grant_of hash s' ≡ some g
  consumed_grant_kept hash g used consumed no_call found = found
  consumed_grant_kept hash g used consumed (then_call before c) found =
      ServiceCall-keeps hash g used consumed c
        (consumed_grant_kept hash g used consumed before found)
