-- ===== src/Storage/Uploads/LeaseRun.antt =====
-- The loop of `claim_uploads` over the selected rows, as a relation between the table before, the
-- rows, the uploads handed out and the table after.
use os_scanner.Prelude.{
  ℕ, ◌+◌, String, ◌≡◌, Bool, true, false, ◌&&◌, List, [], ◌∷◌, arith, any, update, ok, some,
  or_raise-eq-ok, value_error, >>=-eq-ok, Bool-cases, inl, inr, subst, guard, leb, ◌*◌, ◌∙◌, ap,
  sym,
}
use os_scanner.Json.{Json}
use os_scanner.Storage.Runtime.{Runtime, parse_json}
use os_scanner.Storage.Uploads.{Upload, Storage, has_id, is_pending}
use os_scanner.Storage.Uploads.Claim.{
  QueuedUpload, lease_row, lease_rows, queued, claim_uploads, expire_leases, select_ready, second,
}
use os_scanner.Storage.Uploads.Causal.{backfill_causal_links}

-- WHERE upload_id = ? AND status = 'PENDING'
abbrev pub hits : Upload → Upload → Bool
hits row r = has_id row.upload_id r && is_pending r.status

module _ (lib : Runtime) (uuid : ℕ → String) (now lease : ℕ) (text : String) where
  -- The UPDATE of one round.
  abbrev pub after_lease : Upload → List Upload → List Upload
  after_lease row =
      update (hits row) (lease_row (row.attempt_count + 1) (now + lease) (uuid row.upload_id) text)

  abbrev pub handed_out : Upload → Json → QueuedUpload
  handed_out row metadata = queued row (row.attempt_count + 1) (uuid row.upload_id) metadata

  pub data LeaseRun : List Upload → List Upload → List QueuedUpload → List Upload → Type 0 where
    done : (rows : List Upload) → LeaseRun rows [] [] rows
    skip :
        {rows rest rows' : List Upload} {qs : List QueuedUpload} (row : Upload)
        → any (hits row) rows ≡ false
        → LeaseRun rows rest qs rows'
        → LeaseRun rows (row ∷ rest) qs rows'
    grant :
        {rows rest rows' : List Upload} {qs : List QueuedUpload} (row : Upload) (metadata : Json)
        → any (hits row) rows ≡ true
        → lib.loads row.metadata_json ≡ some metadata
        → LeaseRun (after_lease row rows) rest qs rows'
        → LeaseRun rows (row ∷ rest) (handed_out row metadata ∷ qs) rows'

  -- Every successful run of the loop is one of the relation.
  pub lease_rows-LeaseRun :
      (rows todo : List Upload) (qs : List QueuedUpload) (rows' : List Upload)
      → lease_rows lib uuid now lease text rows todo ≡ ok (qs, rows')
      → LeaseRun rows todo qs rows'
  unfolding lease_rows
  lease_rows-LeaseRun rows [] qs rows' e =
      let e0 : [] ≡ qs = ground arith in
      let e1 : rows ≡ rows' = ground arith in
      subst (λ x. LeaseRun rows [] x rows') e0 (subst (LeaseRun rows [] []) e1 (done rows))
  lease_rows-LeaseRun rows (row ∷ rest) qs rows' e = elim (Bool-cases (any (hits row) rows)) [
    | inr miss ↦ skip row miss (lease_rows-LeaseRun rows rest qs rows' (rw miss at e))
    | inl hit ↦
        let (metadata, parsed, e1) = >>=-eq-ok (parse_json lib row.metadata_json) _ (rw hit at e) in
        let (later, ran, e2) =
          >>=-eq-ok (lease_rows lib uuid now lease text (after_lease row rows) rest) _ e1 in
        let e3 : handed_out row metadata ∷ later.0 ≡ qs = ground arith in
        let e4 : later.1 ≡ rows' = ground arith in
        subst (λ x. LeaseRun rows (row ∷ rest) x rows') e3
          (subst (LeaseRun rows (row ∷ rest) (handed_out row metadata ∷ later.0)) e4 (
            grant row metadata hit (or_raise-eq-ok (lib.loads row.metadata_json) value_error parsed)
              (lease_rows-LeaseRun (after_lease row rows) rest later.0 later.1 ran)))
  ]

  -- A successful claim: the links are filled in, lapsed leases are ended, and the loop runs.
  pub record Claimed (limit : ℕ) (s : Storage) (qs : List QueuedUpload) (s' : Storage)
      : Type 0 where
    pub linked : List Upload
    pub filled : backfill_causal_links lib s.uploads ≡ ok linked
    pub run :
        LeaseRun
          (expire_leases now text linked)
          (select_ready now limit (expire_leases now text linked))
          qs
          s'.uploads
    pub others : s' ≡ record s { uploads = s'.uploads }

  pub claim_uploads-Claimed :
      (limit : ℕ) (s : Storage) (qs : List QueuedUpload) (s' : Storage)
      → claim_uploads lib uuid now lease text limit s ≡ ok (qs, s')
      → Claimed limit s qs s'
  unfolding claim_uploads
  claim_uploads-Claimed limit s qs s' e =
      let (_, _, e1) = >>=-eq-ok (guard (leb 1 limit && leb limit 1000) value_error) _ e in
      let (_, _, e2) =
        >>=-eq-ok (guard (leb second lease && leb lease (86_400 * second)) value_error) _ e1 in
      let (linked, filled, e3) = >>=-eq-ok (backfill_causal_links lib s.uploads) _ e2 in
      let current = expire_leases now text linked in
      let (claimed, ran, e4) =
        >>=-eq-ok (lease_rows lib uuid now lease text current (select_ready now limit current)) _
          e3 in
      let e5 : claimed.0 ≡ qs = ground arith in
      let e6 : record s { uploads = claimed.1 } ≡ s' = ground arith in
      record {
        linked = linked;
        filled = filled;
        run =
            lease_rows-LeaseRun current _ qs s'.uploads (ran ∙ ap ok (λ i. (e5 i, (e6 i).uploads)));
        others = sym e6 ∙ ap (λ x. record s { uploads = x }) (ap (λ (x : Storage). x.uploads) e6);
      }
