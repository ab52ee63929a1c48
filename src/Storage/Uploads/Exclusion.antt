-- ===== src/Storage/Uploads/Exclusion.antt =====
-- Leases against later claims.
use os_scanner.Prelude.{
  ℕ, ◌+◌, ◌<◌, String, ◌≡◌, ◌≢◌, refl, Option, none, some, List, [], ◌∷◌, arith, select, All,
  All-imp, ok, >>=-eq-ok, ok-injective, subst, is_none, if◌then◌else◌, ◌&&◌, update,
}
use os_scanner.Storage.Runtime.{Runtime, parse_json}
use os_scanner.Storage.Uploads.{Upload, Storage, in_flight, find_upload, has_id}
use os_scanner.Storage.Uploads.Table.{find-update}
use os_scanner.Storage.Uploads.Causal.{
  link_row, id_of, latest_before, link_in, link_upload, link_all, backfill_causal_links,
  causal_group, fields_or_empty, is_unlinked,
}
use os_scanner.Storage.Uploads.Claim.{
  QueuedUpload, expire_leases, bury, revive, is_exhausted, is_abandoned, lease_row, claim_uploads,
}
use os_scanner.Storage.Uploads.LeaseRun.{claim_uploads-Claimed}
use os_scanner.Storage.Uploads.Invariant.{IsValid}
use os_scanner.Storage.Uploads.Invariant.Claiming.{claim_uploads-IsValid}
use os_scanner.Storage.Uploads.Leasing.{IsGranted, LeaseRun-keeps, claim_uploads-IsGranted}

-- The upload is in flight under the token until the given time.
pub record IsHeld (id until : ℕ) (token : String) (rows : List Upload) : Type 0 where
  pub row : Upload
  pub found : find_upload id rows ≡ some row
  pub flying : row.status ≡ in_flight
  pub until_ : row.leased_until ≡ some until
  pub token_ : row.lease_token ≡ some token

module _ (id until : ℕ) (token : String) where
  link_in-IsHeld :
      (group : Option String) (row : Upload) (rows : List Upload)
      → IsHeld id until token rows
      → IsHeld id until token (link_in group row rows)
  unfolding link_in
  link_in-IsHeld none row rows h = h
  link_in-IsHeld (some group) row rows h =
      let predecessor =
        if is_none row.resync_for then latest_before group row.upload_id rows else none in
      let test = λ (r : Upload). has_id row.upload_id r && is_none r.causal_group in
      let f = link_row group (id_of predecessor) in
      record {
        row = if test h.row then f h.row else h.row;
        found = ground (arith, find-update test f (λ r. refl) id rows, h.found);
        flying = ground (arith, h.flying);
        until_ = ground (arith, h.until_);
        token_ = ground (arith, h.token_);
      }

  module _ (lib : Runtime) where
    link_all-IsHeld :
        (rows todo : List Upload) {rows' : List Upload}
        → link_all lib rows todo ≡ ok rows'
        → IsHeld id until token rows
        → IsHeld id until token rows'
    unfolding link_all link_upload
    link_all-IsHeld rows [] e h = subst (IsHeld id until token) (ok-injective e) h
    link_all-IsHeld rows (row ∷ rest) e h =
        let (next, linked, others) =
          >>=-eq-ok (link_upload lib rows row) (λ linked. link_all lib linked rest) e in
        let (raw, _, e1) =
          >>=-eq-ok (parse_json lib row.metadata_json)
            (λ raw.
              ok (link_in (causal_group lib row.kind (fields_or_empty raw) row.payload) row rows))
            linked in
        link_all-IsHeld next rest others
          (subst (IsHeld id until token) (ok-injective e1) (link_in-IsHeld _ row rows h))

  backfill-IsHeld :
      (lib : Runtime) (rows rows' : List Upload)
      → backfill_causal_links lib rows ≡ ok rows'
      → IsHeld id until token rows
      → IsHeld id until token rows'
  unfolding backfill_causal_links
  backfill-IsHeld lib rows rows' e h = link_all-IsHeld lib rows (select is_unlinked rows) e h

  expire_leases-IsHeld :
      (now : ℕ) (text : String) (rows : List Upload)
      → now < until
      → IsHeld id until token rows
      → IsHeld id until token (expire_leases now text rows)
  unfolding expire_leases
  expire_leases-IsHeld now text rows early h = record {
    row = h.row;
    found = ground (
      arith,
      h.found,
      h.flying,
      h.until_,
      find-update (is_exhausted now) (bury text) (λ r. refl) id rows,
      find-update (is_abandoned now) (revive now text) (λ r. refl) id
          (update (is_exhausted now) (bury text) rows),
    );
    flying = h.flying;
    until_ = h.until_;
    token_ = h.token_;
  }

module _ (lib : Runtime) (uuid : ℕ → String) (now lease : ℕ) (text : String) where
  not_granted :
      (id until : ℕ) (token : String) (before after : List Upload) (q : QueuedUpload)
      → IsHeld id until token before
      → IsGranted lib uuid now lease text before after q
      → q.upload_id ≢ id
  not_granted id until token before after q h g same =
      ground (arith, h.found, h.flying, g.found, g.ready)

  granted-IsHeld :
      (before after : List Upload) (q : QueuedUpload)
      → IsGranted lib uuid now lease text before after q
      → IsHeld q.upload_id (now + lease) q.lease_token after
  unfolding lease_row
  granted-IsHeld before after q g = record {
    row = lease_row q.attempt_count (now + lease) q.lease_token text g.row;
    found = g.leased;
    flying = refl;
    until_ = refl;
    token_ = refl;
  }

  -- In a well-formed table, before a lease lapses, a successful claim does not hand its upload out and
  -- leaves the lease as it is.
  pub claim_uploads-IsHeld :
      (limit id until : ℕ) (token : String) (s : Storage) (qs : List QueuedUpload) (s' : Storage)
      → IsValid s
      → IsHeld id until token s.uploads
      → now < until
      → claim_uploads lib uuid now lease text limit s ≡ ok (qs, s')
      → IsHeld id until token s'.uploads × All (λ q. q.upload_id ≢ id) qs
  claim_uploads-IsHeld limit id until token s qs s' t h early e =
      let c = claim_uploads-Claimed lib uuid now lease text limit s qs s' e in
      let (linked, filled, granted, _) =
        claim_uploads-IsGranted lib uuid now lease text limit s qs s' t e in
      let held = λ (rows : List Upload) (b : backfill_causal_links lib s.uploads ≡ ok rows).
        expire_leases-IsHeld id until token now text rows early
          (backfill-IsHeld id until token lib s.uploads rows b h) in
      let h1 = held c.linked c.filled in
      (
        record {
          row = h1.row;
          found =
              LeaseRun-keeps lib uuid now lease text id h1.row c.run h1.found
                (ground (arith, h1.flying));
          flying = h1.flying;
          until_ = h1.until_;
          token_ = h1.token_;
        },
        All-imp _ _ qs (λ q g. not_granted id until token _ s'.uploads q (held linked filled) g)
            granted,
      )

-- Two successful claims in a row on a well-formed table, the second before the first one's leases
-- lapse, hand out different uploads.
pub claims_disjoint :
    (lib : Runtime) (uuid uuid' : ℕ → String) (now lease now' lease' limit limit' : ℕ)
    (text text' : String) (s : Storage) (qs : List QueuedUpload) (s' : Storage)
    (qs' : List QueuedUpload) (s'' : Storage)
    → IsValid s
    → claim_uploads lib uuid now lease text limit s ≡ ok (qs, s')
    → claim_uploads lib uuid' now' lease' text' limit' s' ≡ ok (qs', s'')
    → now' < now + lease
    → All (λ q. All (λ q'. q'.upload_id ≢ q.upload_id) qs') qs
claims_disjoint lib uuid uuid' now lease now' lease' limit limit' text text' s qs s' qs' s'' t e e'
      early =
    let (linked, filled, granted, _) =
      claim_uploads-IsGranted lib uuid now lease text limit s qs s' t e in
    let t' = claim_uploads-IsValid lib uuid now lease text limit s e t in
    All-imp (IsGranted lib uuid now lease text (expire_leases now text linked) s'.uploads)
      (λ q. All (λ q'. q'.upload_id ≢ q.upload_id) qs') qs
      (λ q g.
        (claim_uploads-IsHeld lib uuid' now' lease' text' limit' q.upload_id (now + lease)
          q.lease_token s' qs' s'' t'
          (granted-IsHeld lib uuid now lease text (expire_leases now text linked) s'.uploads q g)
          early e').1)
      granted
