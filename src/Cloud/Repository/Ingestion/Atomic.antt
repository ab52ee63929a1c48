-- ===== src/Cloud/Repository/Ingestion/Atomic.antt =====
-- Refused uploads of evidence, and uploads after an accepted one.
use os_scanner.Prelude.{
  ℕ, String, ◌≡◌, refl, ap, sym, ◌∙◌, Bool, Option, none, some, List, arith, str_eq, Bool-cases,
  Option-cases, Result-cases, inl, inr, ok, err, Error,
}
use os_scanner.Json.{Json, Fields}
use os_scanner.Storage.Runtime.{Runtime}
use os_scanner.Cloud.Dict.{at_key, put, at_key-put_same_text}
use os_scanner.Cloud.Repository.{
  DevicePrincipal, ScanRecord, AnalysisTask, Repository, Response, ReplayKey, replay_or, remember,
  audit, after_checks, same_replay_key,
}
use os_scanner.Cloud.Repository.Scans.{owned_scan}
use os_scanner.Cloud.Repository.Scans.Changes.{scan_at}
use os_scanner.Cloud.Repository.Ingestion.{
  check_upload, store_upload, accepted_scan, ingest_key, ingest_new, ingest_scan,
}
use os_scanner.Cloud.Repository.Ingestion.States.{check_upload-reconstruction}

some-injective : {a b : ScanRecord} → some a ≡ some b → a ≡ b
some-injective h = cc

module _ (same_number : Json → Json → Bool) (fromisoformat : String → Option (Option ℕ))
    (lib : Runtime) (finite : String → Bool) where
  ingest_new-refused :
      (now at : ℕ) (p : DevicePrincipal) (scan_id : String) (upload : Fields)
      (tasks : List AnalysisTask) (replay : ReplayKey) (digest : String) (s : Repository)
      {error : Error} {s' : Repository}
      → ingest_new same_number fromisoformat lib finite now at p scan_id upload tasks replay digest
          s
        ≡ (err error, s')
      → s' ≡ s
  unfolding ingest_new after_checks store_upload
  ingest_new-refused now at p scan_id upload tasks replay digest s e =
      elim (Result-cases
        (check_upload same_number fromisoformat lib finite now p scan_id upload tasks s)) [
          | inr (error, refused) ↦ ground (arith, refused, e)
          | inl (a, passed) ↦ absurd (ground (arith, passed, e))
        ]

  -- An upload that raises leaves every table as it was: no scan, task, inventory state, remembered
  -- answer or audit event of it is kept.
  pub ingest_scan-refused :
      (now at : ℕ) (p : DevicePrincipal) (scan_id : String) (upload : Fields)
      (tasks : List AnalysisTask) (key digest : String) (s : Repository) {error : Error}
      {s' : Repository}
      → ingest_scan same_number fromisoformat lib finite now at p scan_id upload tasks key digest s
        ≡ (err error, s')
      → s' ≡ s
  unfolding ingest_scan replay_or
  ingest_scan-refused now at p scan_id upload tasks key digest s e =
      let replay : ReplayKey = ingest_key same_number fromisoformat lib finite p scan_id key in
      elim (Option-cases (at_key same_replay_key replay s.idempotency)) [
        | inl fresh ↦
            ingest_new-refused now at p scan_id upload tasks replay digest s
              (rw (fresh, replay_or) at e)
        | inr (known, remembered) ↦ elim (Bool-cases (str_eq known.0 digest)) [
          | inl same ↦ absurd (ground (arith, remembered, same, e))
          | inr other ↦ ground (arith, remembered, other, e)
        ]
      ]

  owned_scan-found :
      (p : DevicePrincipal) (scan_id : String) (s : Repository) (old : ScanRecord)
      → owned_scan p scan_id s ≡ ok old
      → scan_at scan_id s ≡ some old
  unfolding owned_scan
  owned_scan-found p scan_id s old owned = ground (arith, owned)

  -- The table of scans after an accepted upload.
  ingest_new-evidence :
      (now at : ℕ) (p : DevicePrincipal) (scan_id : String) (upload : Fields)
      (tasks : List AnalysisTask) (replay : ReplayKey) (digest : String) (s : Repository)
      {r : Response} {s' : Repository}
      → ingest_new same_number fromisoformat lib finite now at p scan_id upload tasks replay digest
          s
        ≡ (ok r, s')
      → (old : ScanRecord) × (new : ScanRecord) × (evidence : Fields) × (scan_at scan_id s
          ≡ some old)
        × (old.upload ≡ none)
        × (scan_at scan_id s' ≡ some new)
        × (new.upload ≡ some evidence)
  unfolding ingest_new after_checks store_upload remember audit
  ingest_new-evidence now at p scan_id upload tasks replay digest s {r} {s'} e =
      elim (Result-cases
        (check_upload same_number fromisoformat lib finite now p scan_id upload tasks s)) [
          | inr (error, refused) ↦ absurd (ground (arith, refused, e))
          | inl (a, passed) ↦
              let (owned, fresh, _, _) =
                check_upload-reconstruction same_number fromisoformat lib finite now p scan_id
                  upload tasks s passed in
              let stored : put str_eq scan_id
                    (accepted_scan same_number fromisoformat lib finite a upload now) s.scans
                  ≡ s'.scans =
                ground (arith, passed, e) in
              (
                a.record_before,
                accepted_scan same_number fromisoformat lib finite a upload now,
                _,
                owned_scan-found p scan_id s a.record_before owned,
                fresh,
                ap (at_key str_eq scan_id) (sym stored)
                    ∙ at_key-put_same_text scan_id
                        (accepted_scan same_number fromisoformat lib finite a upload now) s.scans,
                refl,
              )
        ]

  -- A scan with evidence takes no other.
  ingest_new-again :
      (now at : ℕ) (p : DevicePrincipal) (scan_id : String) (upload : Fields)
      (tasks : List AnalysisTask) (replay : ReplayKey) (digest : String) (s : Repository)
      (r : ScanRecord) (evidence : Fields)
      → scan_at scan_id s ≡ some r
      → r.upload ≡ some evidence
      → (error : Error) × (ingest_new same_number fromisoformat lib finite now at p scan_id upload
            tasks replay digest s
          ≡ (err error, s))
  unfolding ingest_new
  ingest_new-again now at p scan_id upload tasks replay digest s r evidence found has =
      elim (Result-cases
        (check_upload same_number fromisoformat lib finite now p scan_id upload tasks s)) [
          | inr (error, refused) ↦ (error, rw (refused, after_checks) refl)
          | inl (a, passed) ↦
              let (owned, fresh, _, _) =
                check_upload-reconstruction same_number fromisoformat lib finite now p scan_id
                  upload tasks s passed in
              let there = owned_scan-found p scan_id s a.record_before owned in
              let same : r ≡ a.record_before = some-injective (sym found ∙ there) in
              absurd (ground (arith, has, fresh, ap (λ x. x.upload) same))
        ]

  -- After a scan's evidence was accepted, no upload for the scan is accepted any more, whoever sends
  -- it and whatever it says: under a key that is not remembered it raises and changes nothing.
  pub ingest_scan_once :
      (now at : ℕ) (p : DevicePrincipal) (scan_id : String) (upload : Fields)
      (tasks : List AnalysisTask) (key digest : String) (s : Repository) {r : Response}
      {s' : Repository} (now' at' : ℕ) (q : DevicePrincipal) (upload' : Fields)
      (tasks' : List AnalysisTask) (key' digest' : String)
      → at_key same_replay_key
          (ingest_key same_number fromisoformat lib finite p scan_id key)
          s.idempotency
        ≡ none
      → ingest_scan same_number fromisoformat lib finite now at p scan_id upload tasks key digest s
        ≡ (ok r, s')
      → at_key same_replay_key
          (ingest_key same_number fromisoformat lib finite q scan_id key')
          s'.idempotency
        ≡ none
      → (error : Error) × (ingest_scan same_number fromisoformat lib finite now' at' q scan_id
            upload' tasks' key' digest' s'
          ≡ (err error, s'))
  unfolding ingest_scan replay_or
  ingest_scan_once now at p scan_id upload tasks key digest s {r} {s'} now' at' q upload' tasks'
        key' digest' fresh e fresh' =
      let (old, new, evidence, _, _, found, has) =
        ingest_new-evidence now at p scan_id upload tasks
          (ingest_key same_number fromisoformat lib finite p scan_id key) digest s
          (rw (fresh, replay_or) at e) in
      rw (fresh', replay_or)
        (ingest_new-again now' at' q scan_id upload' tasks'
          (ingest_key same_number fromisoformat lib finite q scan_id key') digest' s' new evidence
          found has)
