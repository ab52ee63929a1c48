-- ===== src/Storage/Audit/Chain.antt =====
-- record_audit_event against verify_audit_chain.
use mathlib.Core.List.{reverse, reverse-cons}
use os_scanner.Prelude.{
  String, ◌≡◌, refl, Bool, true, ◌&&◌, Option, none, some, List, [], ◌∷◌, ◌++◌, str_eq, eq_iff,
  str_eq_refl, arith, ok, find, >>=-eq-ok,
}
use os_scanner.Json.{Json}
use os_scanner.Storage.Audit.{
  Content, AuditRow, same, content_eq, document, latest_hash, insert_event, record_audit_event,
  clean_content, verify_from, verify_audit_chain,
}

pub same_refl : (o : Option String) → same o o ≡ true
same_refl none = refl
same_refl (some a) = str_eq_refl a

pub same-eq : (a b : Option String) → same a b ≡ true → a ≡ b
same-eq none none h = refl
same-eq none (some b) h = cc
same-eq (some a) none h = cc
same-eq (some a) (some b) h = ground (arith, eq_iff a b)

pub content_eq_refl : (c : Content) → content_eq c c ≡ true
unfolding content_eq
content_eq_refl c = simp (str_eq_refl, same_refl)

module _ (hash_document : Json → String) where
  abbrev last_hash : Option String → List AuditRow → Option String
  last_hash p [] = p
  last_hash p (r ∷ rs) = last_hash (some r.event_hash) rs

  -- The loop's test of one row.
  abbrev pub linked : Option String → AuditRow → Bool
  linked p r = same r.previous_hash p && str_eq r.event_hash (hash_document (document p r.content))

  verify_from-snoc :
      (p : Option String) (xs : List AuditRow) (r : AuditRow)
      → verify_from hash_document p (xs ++ r ∷ [])
        ≡ (verify_from hash_document p xs && linked (last_hash p xs) r)
  unfolding verify_from
  verify_from-snoc p [] r = ground arith
  verify_from-snoc p (x ∷ xs) r = ground (arith, verify_from-snoc (some x.event_hash) xs r)

  last_hash-snoc :
      (p : Option String) (xs : List AuditRow) (r : AuditRow)
      → last_hash p (xs ++ r ∷ []) ≡ some r.event_hash
  last_hash-snoc p [] r = refl
  last_hash-snoc p (x ∷ xs) r = last_hash-snoc (some x.event_hash) xs r

  last_hash-reverse : (rows : List AuditRow) → last_hash none (reverse rows) ≡ latest_hash rows
  last_hash-reverse [] = refl
  last_hash-reverse (r ∷ rs) = rw (reverse-cons r rs) (last_hash-snoc none (reverse rs) r)

  -- A chain with one newer row verifies exactly when the older rows do and the new row is linked.
  pub verify_audit_chain-cons :
      (r : AuditRow) (rows : List AuditRow)
      → verify_audit_chain hash_document (r ∷ rows)
        ≡ (verify_audit_chain hash_document rows && linked (latest_hash rows) r)
  unfolding verify_audit_chain
  verify_audit_chain-cons r rows =
      rw (reverse-cons r rows, verify_from-snoc none (reverse rows) r, last_hash-reverse rows)

  insert_event-verifies :
      (rows : List AuditRow) (c : Content) (existing_ok : Bool) {h : String} {rows' : List AuditRow}
      → insert_event hash_document rows c existing_ok ≡ ok (h, rows')
      → verify_audit_chain hash_document rows ≡ true
      → verify_audit_chain hash_document rows' ≡ true
  unfolding insert_event
  insert_event-verifies rows c existing_ok e v = ground (
    arith,
    verify_audit_chain-cons
        (record {
          content = c;
          previous_hash = latest_hash rows;
          event_hash = hash_document (document (latest_hash rows) c);
        })
        rows,
    same_refl (latest_hash rows),
    str_eq_refl (hash_document (document (latest_hash rows) c)),
  )

  insert_event_again :
      (rows : List AuditRow) (c : Content) (existing_ok : Bool) {h : String} {rows' : List AuditRow}
      → insert_event hash_document rows c existing_ok ≡ ok (h, rows')
      → insert_event hash_document rows' c existing_ok ≡ ok (h, rows')
  unfolding insert_event find
  insert_event_again rows c existing_ok e =
      ground (arith, content_eq_refl c, str_eq_refl c.event_id)

  -- A log that verifies still verifies after any accepted event.
  pub record_audit_event-verifies :
      (rows : List AuditRow) (c : Content) (existing_ok : Bool) {h : String} {rows' : List AuditRow}
      → record_audit_event hash_document rows c existing_ok ≡ ok (h, rows')
      → verify_audit_chain hash_document rows ≡ true
      → verify_audit_chain hash_document rows' ≡ true
  unfolding record_audit_event
  record_audit_event-verifies rows c existing_ok e v =
      let (cleaned, _, inserted) = >>=-eq-ok (clean_content c) _ e in
      insert_event-verifies rows cleaned existing_ok inserted v

  -- Recording an accepted event once more returns the same hash and leaves the log as it is.
  pub record_audit_event_again :
      (rows : List AuditRow) (c : Content) (existing_ok : Bool) {h : String} {rows' : List AuditRow}
      → record_audit_event hash_document rows c existing_ok ≡ ok (h, rows')
      → record_audit_event hash_document rows' c existing_ok ≡ ok (h, rows')
  unfolding record_audit_event
  record_audit_event_again rows c existing_ok e =
      let (cleaned, made, inserted) = >>=-eq-ok (clean_content c) _ e in
      rw made (insert_event_again rows cleaned existing_ok inserted)
