-- ===== src/Storage/Uploads/Leasing.antt =====
-- What `claim_uploads` hands out, and under which lease.
use os_scanner.Prelude.{
  ℕ, ◌+◌, ◌≤◌, String, ◌≡◌, refl, true, false, some, List, arith, any, any-All, length,
  length-take-le, All, All-imp, All-and, ok,
}
use os_scanner.Storage.Runtime.{Runtime}
use os_scanner.Storage.Uploads.{Upload, Storage, is_pending, find_upload}
use os_scanner.Storage.Uploads.Table.{IsTable, IsTable-Finds, find-update}
use os_scanner.Storage.Uploads.Causal.{backfill_causal_links}
use os_scanner.Storage.Uploads.Claim.{
  QueuedUpload, expire_leases, is_ready, select_ready, lease_row, queued, claim_uploads,
}
use os_scanner.Storage.Uploads.LeaseRun.{
  LeaseRun, done, skip, grant, hits, after_lease, claim_uploads-Claimed,
}
use os_scanner.Storage.Uploads.Invariant.{IsValid, backfill-IsTable}
use os_scanner.Storage.Uploads.Invariant.Claiming.{
  IsPicked, expire_leases-IsTable, select_ready-All, select_ready-IsPicked, lease_one-IsTable,
  lease_one-IsPicked,
}

length-select_ready :
    (now limit : ℕ) (rows : List Upload) → length (select_ready now limit rows) ≤ limit
unfolding select_ready
length-select_ready now limit rows = length-take-le limit _

module _ (lib : Runtime) (uuid : ℕ → String) (now lease : ℕ) (text : String) where
  -- A round leaves every row alone that is not pending.
  lease_one-keeps :
      (row : Upload) (rows : List Upload) (id : ℕ) (r : Upload)
      → find_upload id rows ≡ some r
      → is_pending r.status ≡ false
      → find_upload id (after_lease lib uuid now lease text row rows) ≡ some r
  unfolding lease_row
  lease_one-keeps row rows id r e busy = ground (
    arith,
    find-update (hits row)
        (lease_row (row.attempt_count + 1) (now + lease) (uuid row.upload_id) text) (λ x. refl) id
        rows,
  )

  pub LeaseRun-keeps :
      {rows todo rows' : List Upload} {qs : List QueuedUpload} (id : ℕ) (r : Upload)
      → LeaseRun lib uuid now lease text rows todo qs rows'
      → find_upload id rows ≡ some r
      → is_pending r.status ≡ false
      → find_upload id rows' ≡ some r
  LeaseRun-keeps id r (done rows) e busy = e
  LeaseRun-keeps id r (skip row miss run) e busy = LeaseRun-keeps id r run e busy
  LeaseRun-keeps id r (grant {rows = rows} row m hit parsed run) e busy =
      LeaseRun-keeps id r run (lease_one-keeps row rows id r e busy) busy

  -- An upload that was handed out: its row was ready in the table before the loop, and the table after
  -- it holds that row in flight, under the returned token, one attempt further.
  pub record IsGranted (before after : List Upload) (q : QueuedUpload) : Type 0 where
    pub row : Upload
    pub found : find_upload q.upload_id before ≡ some row
    pub ready : is_ready before now row ≡ true
    pub counted : q.attempt_count ≡ row.attempt_count + 1
    pub leased :
        find_upload q.upload_id after
        ≡ some (lease_row q.attempt_count (now + lease) q.lease_token text row)

  -- A round that hits leaves the row of its id leased.
  lease_one-found :
      (hi : ℕ) (row : Upload) (rows : List Upload)
      → IsTable 0 hi rows
      → IsPicked rows row
      → any (hits row) rows ≡ true
      → find_upload row.upload_id (after_lease lib uuid now lease text row rows)
        ≡ some (lease_row (row.attempt_count + 1) (now + lease) (uuid row.upload_id) text row)
  unfolding lease_row
  lease_one-found hi row rows t p hit =
      let (r, here, passes) = any-All _ (hits row) rows (IsTable-Finds 0 hi rows t) hit in
      let this : find_upload row.upload_id rows ≡ some r = ground (arith) in
      let same : r ≡ row = p.current r this (ground arith) in
      ground (
        arith,
        find-update (hits row)
            (lease_row (row.attempt_count + 1) (now + lease) (uuid row.upload_id) text) (λ x. refl)
            row.upload_id rows,
      )

  -- What is carried through the loop for the rows still to come.
  abbrev Waiting : List Upload → List Upload → Upload → Type 0
  Waiting before rows row =
      IsPicked rows row
      × ((find_upload row.upload_id before ≡ some row) × (is_ready before now row ≡ true))

  LeaseRun-IsGranted :
      (hi : ℕ) (before : List Upload) {rows todo rows' : List Upload} {qs : List QueuedUpload}
      → LeaseRun lib uuid now lease text rows todo qs rows'
      → All (Waiting before rows) todo
      → IsTable 0 hi rows
      → All (IsGranted before rows') qs
  unfolding queued
  LeaseRun-IsGranted hi before (done rows) w t = tt
  LeaseRun-IsGranted hi before (skip row miss run) w t = LeaseRun-IsGranted hi before run w.1 t
  LeaseRun-IsGranted hi before (grant {rows = rows} {rest = rest} row m hit parsed run) w t = (
    record {
      row = row;
      found = ((w.0).1).0;
      ready = ((w.0).1).1;
      counted = refl;
      leased =
          LeaseRun-keeps row.upload_id _ run (lease_one-found hi row rows t (w.0).0 hit)
            (unfold lease_row in refl);
    },
    LeaseRun-IsGranted hi before run
        (All-imp _ _ rest (λ x h. (lease_one-IsPicked _ _ _ text rows row x h.0, h.1)) w.1)
        (lease_one-IsTable _ _ _ text hi rows row refl (w.0).0 t),
  )

  length-LeaseRun :
      {rows todo rows' : List Upload} {qs : List QueuedUpload}
      → LeaseRun lib uuid now lease text rows todo qs rows'
      → length qs ≤ length todo
  length-LeaseRun (done rows) = omega arith
  length-LeaseRun (skip row miss run) = omega (arith, length-LeaseRun run)
  length-LeaseRun (grant row m hit parsed run) = omega (arith, length-LeaseRun run)

  pub claim_uploads-IsGranted :
      (limit : ℕ) (s : Storage) (qs : List QueuedUpload) (s' : Storage)
      → IsValid s
      → claim_uploads lib uuid now lease text limit s ≡ ok (qs, s')
      → (linked : List Upload) × (backfill_causal_links lib s.uploads ≡ ok linked)
        × All (IsGranted (expire_leases now text linked) s'.uploads) qs
        × (length qs ≤ limit)
  claim_uploads-IsGranted limit s qs s' t e =
      let c = claim_uploads-Claimed lib uuid now lease text limit s qs s' e in
      let hi = s.next_upload_id in
      let before = expire_leases now text c.linked in
      let table =
        expire_leases-IsTable now text hi c.linked (backfill-IsTable lib hi s.uploads c.filled t) in
      (
        c.linked,
        c.filled,
        LeaseRun-IsGranted hi before c.run
            (All-and _ _ (select_ready now limit before)
              (select_ready-IsPicked now limit hi before table)
              (select_ready-All
                (λ r. (find_upload r.upload_id before ≡ some r) × (is_ready before now r ≡ true))
                now limit hi before table (λ r known ready. (known.1, ready))))
            table,
        omega (arith, length-LeaseRun c.run, length-select_ready now limit before),
      )
