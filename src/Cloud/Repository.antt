-- ===== src/Cloud/Repository.antt =====
-- cloud_service/repository.py: the records, the tables of InMemoryRepository and the bookkeeping that
-- its operations share. Instants and durations are whole microseconds. An operation holds the lock, so
-- it is a function; it returns its result next to the tables, since an exception undoes nothing.
pub mod Enrollment
pub mod Tasks
pub mod Scans
pub mod Jobs
pub mod Ingestion
pub mod Refusals
pub mod Reads
use Prim.Native.String.{◌++◌ as append}
use os_scanner.Prelude.{
  ℕ, ◌+◌, String, ◌≡◌, refl, Bool, true, false, ◌&&◌, Option, none, some, List, [], ◌∷◌, ◌++◌,
  arith, str_eq, str_eq_refl, if◌then◌else◌, length, Result, ok, err, Error, idempotency_conflict,
  inl, inr, Option-cases,
}
use os_scanner.Prelude.Text.{show}
use os_scanner.Json.{Json, Fields}
use os_scanner.Cloud.Inventory.{InventoryState}
use os_scanner.Cloud.Dict.{at_key, put, at_key-put_same}

pub record DevicePrincipal : Type 0 where
  pub tenant_id : String
  pub endpoint_id : String
  pub credential_id : String
  pub generation : ℕ

pub record EndpointRecord : Type 0 where
  pub tenant_id : String
  pub endpoint_id : String
  pub hostname : String
  pub os_family : String
  pub os_version : String
  pub architecture : String
  pub scanner_version : String
  pub credential_generation : ℕ
  pub enrolled_at : ℕ
  pub last_seen_at : ℕ

pub record CredentialRecord : Type 0 where
  pub tenant_id : String
  pub endpoint_id : String
  pub credential_id : String
  pub token_hash : String
  pub generation : ℕ
  pub issued_at : ℕ
  pub expires_at : ℕ
  pub superseded_at : Option ℕ
  pub valid_until : Option ℕ

pub record EnrollmentGrantRecord : Type 0 where
  pub tenant_id : String
  pub grant_id : String
  pub token_hash : String
  pub issued_by : String
  pub issued_at : ℕ
  pub expires_at : ℕ
  pub os_family : Option String
  pub label : Option String
  pub consumed_at : Option ℕ
  pub endpoint_id : Option String

pub record ScanRecord : Type 0 where
  pub tenant_id : String
  pub endpoint_id : String
  pub scan_id : String
  pub job_id : String
  pub state : String
  pub job_document : Fields
  pub created_at : ℕ
  pub updated_at : ℕ
  pub upload : Option Fields
  pub terminal_status : Option Fields
  pub final_report : Option Fields

-- TaskKind and TaskState
pub data TaskKind : Type 0 where
  osv depscan : TaskKind

pub data TaskState : Type 0 where
  pending running succeeded retry failed : TaskState

pub record AnalysisTask : Type 0 where
  pub task_id : String
  pub tenant_id : String
  pub endpoint_id : String
  pub scan_id : String
  pub kind : TaskKind
  pub state : TaskState
  pub attempts : ℕ
  pub payload : Fields
  pub created_at : ℕ
  pub updated_at : ℕ
  pub available_at : ℕ
  pub lease_expires_at : Option ℕ
  pub leased_by : Option String
  pub last_error : Option String
  pub result : Option Fields

pub record AuditEvent : Type 0 where
  pub event_id : String
  pub tenant_id : String
  pub event_type : String
  pub actor_type : String
  pub actor_id : Json
  pub resource_type : String
  pub resource_id : String
  pub occurred_at : ℕ
  pub details : Fields

-- What an operation answers, and what is remembered for a replay.
pub data Response : Type 0 where
  grant : EnrollmentGrantRecord → Response
  credential : CredentialRecord → Response
  scan : ScanRecord → Response
  accepted : Response

-- The key of `_idempotency`.
pub record ReplayKey : Type 0 where
  pub tenant : String
  pub operation : String
  pub key : String

abbrev pub same_replay_key : ReplayKey → ReplayKey → Bool
same_replay_key a b =
    str_eq a.tenant b.tenant && str_eq a.operation b.operation && str_eq a.key b.key

pub record Repository : Type 0 where
  pub endpoints : List (String × EndpointRecord)
  pub credentials : List (String × CredentialRecord)
  pub enrollment_grants : List (String × EnrollmentGrantRecord)
  pub scans : List (String × ScanRecord)
  pub tasks : List (String × AnalysisTask)
  pub audit_events : List AuditEvent
  pub rejections : List Fields
  pub inventory_states : List ((String × String) × InventoryState)
  pub idempotency : List (ReplayKey × (String × Response))

-- An operation: what it returns or raises, and the tables after it.
abbrev pub Answer : Type 0
Answer = Result Response × Repository

-- _replay at the head of an operation: a remembered response is returned again.
unfoldable pub replay_or : ReplayKey → String → (Repository → Answer) → Repository → Answer
replay_or key digest body s = elim (at_key same_replay_key key s.idempotency) [
  | none ↦ body s
  | some (existing_digest, response) ↦
      if str_eq existing_digest digest then (ok response, s) else (err idempotency_conflict, s)
]

-- _remember
unfoldable pub remember : ReplayKey → String → Response → Repository → Repository
remember key digest response s = record s {
  idempotency = put same_replay_key key (digest, response) s.idempotency;
}

-- _audit
unfoldable pub audit :
    String → String → String → Json → String → String → ℕ → Fields → Repository → Repository
audit tenant_id event_type actor_type actor_id resource_type resource_id now details s = record s {
  audit_events =
      s.audit_events
      ++ record {
        event_id = append "audit-" (show (length s.audit_events + 1));
        tenant_id = tenant_id;
        event_type = event_type;
        actor_type = actor_type;
        actor_id = actor_id;
        resource_type = resource_type;
        resource_id = resource_id;
        occurred_at = now;
        details = details;
      }
        ∷ [];
}

-- The checks of an operation, before it changes anything: an exception leaves the tables.
unfoldable pub after_checks {ℓ} : {A : Type ℓ} → Result A → Repository → (A → Answer) → Answer
after_checks (err error) s body = (err error, s)
after_checks (ok value) s body = body value

same_replay_key_refl : (k : ReplayKey) → same_replay_key k k ≡ true
same_replay_key_refl k = simp (str_eq_refl)

-- An operation that answered and remembers its answer gives the same answer to the same call.
pub replay_or-again :
    (key : ReplayKey) (digest : String) (body body' : Repository → Answer) (s : Repository)
    {r : Response} {s' : Repository}
    → replay_or key digest body s ≡ (ok r, s')
    → (body s ≡ (ok r, s') → s'.idempotency ≡ put same_replay_key key (digest, r) s.idempotency)
    → replay_or key digest body' s' ≡ (ok r, s')
unfolding replay_or
replay_or-again key digest body body' s {r} {s'} e kept =
    elim (Option-cases (at_key same_replay_key key s.idempotency)) [
      | inl fresh ↦ ground (
        arith,
        fresh,
        kept (ground (arith, fresh)),
        str_eq_refl digest,
        at_key-put_same same_replay_key key (digest, r) s.idempotency (same_replay_key_refl key),
      )
      | inr (known, found) ↦ ground (arith, found)
    ]
