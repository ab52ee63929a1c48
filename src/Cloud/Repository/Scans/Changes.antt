-- ===== src/Cloud/Repository/Scans/Changes.antt =====
-- How a call may change the table of scans, and what stays of a scan under such changes.
use os_scanner.Prelude.{
  String, ◌≡◌, refl, sym, ◌∙◌, Option, none, some, arith, str_eq, eq_iff, Bool-cases, Option-cases,
  inl, inr, subst, ap,
}
use os_scanner.Json.{Fields}
use os_scanner.Cloud.Dict.{at_key, put, at_key-put_same_text, at_key-put_other_text}
use os_scanner.Cloud.Filed
use os_scanner.Cloud.Filed.{put-IsFiled, at_key-own}
use os_scanner.Cloud.Repository.{
  ScanRecord, Repository, ReplayKey, Answer, replay_or, same_replay_key,
}

abbrev pub scan_at : String → Repository → Option ScanRecord
scan_at id s = at_key str_eq id s.scans

abbrev pub id_of : ScanRecord → String
id_of r = r.scan_id

-- Each scan is held once, under its identifier.
abbrev pub IsFiled : Repository → Type 0
IsFiled s = Filed.IsFiled id_of s.scans

-- The scan as a later call may leave it.
pub record IsLater (r r' : ScanRecord) : Type 0 where
  pub identifier : r'.scan_id ≡ r.scan_id
  pub tenant : r'.tenant_id ≡ r.tenant_id
  pub endpoint : r'.endpoint_id ≡ r.endpoint_id
  pub job : r'.job_document ≡ r.job_document
  pub evidence : (v : Fields) → r.upload ≡ some v → r'.upload ≡ some v
  pub status : (v : Fields) → r.terminal_status ≡ some v → r'.terminal_status ≡ some v
  pub report : (v : Fields) → r.final_report ≡ some v → r'.final_report ≡ some v

pub IsLater-refl : (r : ScanRecord) → IsLater r r
IsLater-refl r = record {
  identifier = refl;
  tenant = refl;
  endpoint = refl;
  job = refl;
  evidence = λ v e. e;
  status = λ v e. e;
  report = λ v e. e;
}

pub IsLater-trans : {a b c : ScanRecord} → IsLater a b → IsLater b c → IsLater a c
IsLater-trans f g = record {
  identifier = g.identifier ∙ f.identifier;
  tenant = g.tenant ∙ f.tenant;
  endpoint = g.endpoint ∙ f.endpoint;
  job = g.job ∙ f.job;
  evidence = λ v e. g.evidence v (f.evidence v e);
  status = λ v e. g.status v (f.status v e);
  report = λ v e. g.report v (f.report v e);
}

-- One change: none, a new scan, or a scan replaced by a later version of itself.
pub data ScanChange (s s' : Repository) : Type 0 where
  untouched : s'.scans ≡ s.scans → ScanChange s s'
  added :
      (r : ScanRecord)
      → scan_at r.scan_id s ≡ none
      → s'.scans ≡ put str_eq r.scan_id r s.scans
      → ScanChange s s'
  replaced :
      (id : String) (old new : ScanRecord)
      → scan_at id s ≡ some old
      → IsLater old new
      → s'.scans ≡ put str_eq id new s.scans
      → ScanChange s s'

pub data ScanChanges (first : Repository) : Repository → Type 0 where
  no_change : ScanChanges first first
  then_change : {s s' : Repository} → ScanChanges first s → ScanChange s s' → ScanChanges first s'

pub once : {s s' : Repository} → ScanChange s s' → ScanChanges s s'
once c = then_change no_change c

pub replay_or-ScanChange :
    (key : ReplayKey) (digest : String) (body : Repository → Answer) (s : Repository)
    → ScanChange s (body s).1
    → ScanChange s (replay_or key digest body s).1
unfolding replay_or
replay_or-ScanChange key digest body s c =
    elim (Option-cases (at_key same_replay_key key s.idempotency)) [
      | inl fresh ↦ rw (fresh, replay_or) c
      | inr (known, remembered) ↦ elim (Bool-cases (str_eq known.0 digest)) [
        | inl same ↦ rw (remembered, replay_or, same) (untouched refl)
        | inr other ↦ rw (remembered, replay_or, other) (untouched refl)
      ]
    ]

ScanChange-IsFiled : {s s' : Repository} → IsFiled s → ScanChange s s' → IsFiled s'
ScanChange-IsFiled h (untouched e) = subst (Filed.IsFiled id_of) (sym e) h
ScanChange-IsFiled {s} h (added r fresh e) =
    subst (Filed.IsFiled id_of) (sym e) (put-IsFiled id_of r.scan_id r s.scans refl h)
ScanChange-IsFiled {s} h (replaced id old new found later e) = subst (Filed.IsFiled id_of) (sym e) (
    put-IsFiled id_of id new s.scans (later.identifier ∙ at_key-own id_of id s.scans old h found) h)

pub ScanChanges-IsFiled : {s s' : Repository} → IsFiled s → ScanChanges s s' → IsFiled s'
ScanChanges-IsFiled h no_change = h
ScanChanges-IsFiled h (then_change before c) = ScanChange-IsFiled (ScanChanges-IsFiled h before) c

-- The tables still hold the scan, perhaps later in its life.
abbrev pub Holds : String → ScanRecord → Repository → Type 0
Holds id r s = (r' : ScanRecord) × (scan_at id s ≡ some r') × IsLater r r'

module _ (id : String) (r : ScanRecord) where
  -- A table in which a scan was replaced by a later version of itself.
  put-Holds :
      (scan_id : String) (old new : ScanRecord) (s s' : Repository)
      → scan_at scan_id s ≡ some old
      → s'.scans ≡ put str_eq scan_id new s.scans
      → IsLater old new
      → scan_at id s ≡ some r
      → Holds id r s'
  put-Holds scan_id old new s s' own changed later found = elim (Bool-cases (str_eq scan_id id)) [
    | inl same ↦
        let here : scan_id ≡ id = (eq_iff scan_id id).0 same in
        let this : old ≡ r = ground (arith, own, found, here) in
        (
          new,
          ap (at_key str_eq id) changed
              ∙ subst (λ x. at_key str_eq x (put str_eq scan_id new s.scans) ≡ some new) here
                  (at_key-put_same_text scan_id new s.scans),
          subst (λ x. IsLater x new) this later,
        )
    | inr other ↦ (
      r,
      ap (at_key str_eq id) changed ∙ at_key-put_other_text scan_id id new s.scans other ∙ found,
      IsLater-refl r,
    )
  ]

  ScanChange-Holds : {s s' : Repository} → ScanChange s s' → scan_at id s ≡ some r → Holds id r s'
  ScanChange-Holds (untouched e) found = (r, ap (at_key str_eq id) e ∙ found, IsLater-refl r)
  ScanChange-Holds {s} (added new fresh e) found = (
    r,
    ap (at_key str_eq id) e
        ∙ at_key-put_other_text new.scan_id id new s.scans
            (elim (Bool-cases (str_eq new.scan_id id)) [
              | inl same ↦ absurd (ground (arith, found, fresh, same, eq_iff new.scan_id id))
              | inr other ↦ other
            ])
        ∙ found,
    IsLater-refl r,
  )
  ScanChange-Holds {s} {s'} (replaced scan_id old new own later e) found =
      put-Holds scan_id old new s s' own e later found

pub ScanChanges-Holds :
    (id : String) (r : ScanRecord) {s s' : Repository}
    → ScanChanges s s'
    → scan_at id s ≡ some r
    → Holds id r s'
ScanChanges-Holds id r no_change found = (r, found, IsLater-refl r)
ScanChanges-Holds id r (then_change before c) found =
    let (r1, found1, later1) = ScanChanges-Holds id r before found in
    let (r2, found2, later2) = ScanChange-Holds id r1 c found1 in
    (r2, found2, IsLater-trans later1 later2)
