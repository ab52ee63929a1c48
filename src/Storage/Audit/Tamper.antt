-- ===== src/Storage/Audit/Tamper.antt =====
-- The newest hashes of two audit logs that both verify.
use os_scanner.Prelude.{
  All, All-imp, String, ◌≡◌, ◌≢◌, refl, true, Option, none, some, List, [], ◌∷◌, eq_iff, arith,
}
use os_scanner.Json.{Json}
use os_scanner.Storage.Audit.{
  Content, AuditRow, optional, document, latest_hash, verify_audit_chain,
}
use os_scanner.Storage.Audit.Chain.{same-eq, verify_audit_chain-cons}

optional-injective : (a b : Option String) → optional a ≡ optional b → a ≡ b
optional-injective none none h = refl
optional-injective none (some b) h = cc
optional-injective (some a) none h = cc
optional-injective (some a) (some b) h = cc

-- The document determines the previous hash and the content.
document-injective :
    (p q : Option String) (c d : Content) → document p c ≡ document q d → (p ≡ q) × (c ≡ d)
unfolding document
document-injective p q c d h = (
  optional-injective p q (cc),
  ground (
    arith,
    optional-injective c.actor d.actor,
    optional-injective c.resource_type d.resource_type,
    optional-injective c.resource_id d.resource_id,
    optional-injective c.scan_id d.scan_id,
    optional-injective c.endpoint_id d.endpoint_id,
    optional-injective c.authorization_scope_id d.authorization_scope_id,
  ),
)

module _ (hash : Json → String) where
  -- A verified row is determined by the older rows' hash and its content.
  record Linked (r : AuditRow) (rows : List AuditRow) : Type 0 where
    older : verify_audit_chain hash rows ≡ true
    chained : r.previous_hash ≡ latest_hash rows
    hashed : r.event_hash ≡ hash (document (latest_hash rows) r.content)

  verified-Linked :
      (r : AuditRow) (rows : List AuditRow)
      → verify_audit_chain hash (r ∷ rows) ≡ true
      → Linked r rows
  verified-Linked r rows v =
      let e = verify_audit_chain-cons hash r rows in
      let s = same-eq r.previous_hash (latest_hash rows) in
      record {
        older = ground (arith, e);
        chained = ground (arith, e, s);
        hashed =
            ground (arith, e, eq_iff r.event_hash (hash (document (latest_hash rows) r.content)));
      }

  rows_agree :
      (x y : AuditRow) (xs ys : List AuditRow)
      → Linked x xs
      → Linked y ys
      → x.event_hash ≡ y.event_hash
      → x.content ≡ y.content
      → xs ≡ ys
      → x ∷ xs ≡ y ∷ ys
  rows_agree x y xs ys lx ly eh ec es = ground (arith, lx.chained, ly.chained)

  -- The document of a row, as it was hashed.
  abbrev pub hashed_document : AuditRow → Json
  hashed_document r = document r.previous_hash r.content

  -- No row of the one log collides with a row of the other: where their documents have one hash, the
  -- documents are equal.
  abbrev pub AreCollisionFree : List AuditRow → List AuditRow → Type 0
  AreCollisionFree xs ys =
      All
        (λ x.
          All
            (λ y.
              hash (hashed_document x) ≡ hash (hashed_document y)
              → hashed_document x ≡ hashed_document y)
            ys)
        xs

  equal_logs :
      (xs ys : List AuditRow)
      → AreCollisionFree xs ys
      → verify_audit_chain hash xs ≡ true
      → verify_audit_chain hash ys ≡ true
      → latest_hash xs ≡ latest_hash ys
      → xs ≡ ys
  equal_logs [] [] free vx vy e = refl
  equal_logs [] (y ∷ ys) free vx vy e = cc
  equal_logs (x ∷ xs) [] free vx vy e = cc
  equal_logs (x ∷ xs) (y ∷ ys) free vx vy e =
      let lx = verified-Linked x xs vx in
      let ly = verified-Linked y ys vy in
      let eh : x.event_hash ≡ y.event_hash = cc in
      let one_hash : hash (hashed_document x) ≡ hash (hashed_document y) =
        cc (lx.hashed, ly.hashed, lx.chained, ly.chained, eh) in
      let (ep, ec) =
        document-injective x.previous_hash y.previous_hash x.content y.content
          ((free.0).0 one_hash) in
      let older = All-imp _ _ xs (λ z all. all.1) free.1 in
      rows_agree x y xs ys lx ly eh ec
        (equal_logs xs ys older lx.older ly.older (cc (lx.chained, ly.chained, ep)))

  -- Two different logs that both verify end in different hashes, where no row of the one collides with a
  -- row of the other under the hash.
  pub verified_logs_differ :
      (xs ys : List AuditRow)
      → AreCollisionFree xs ys
      → verify_audit_chain hash xs ≡ true
      → verify_audit_chain hash ys ≡ true
      → xs ≢ ys
      → latest_hash xs ≢ latest_hash ys
  verified_logs_differ xs ys free vx vy differ e = differ (equal_logs xs ys free vx vy e)
