-- ===== src/Storage/Uploads/Invariant/Claiming.antt =====
-- `claim_uploads` and the well-formedness of the table.
use os_scanner.Prelude.{
  ℕ, ◌+◌, ◌<◌, String, ◌≡◌, refl, true, some, List, arith, update, All, All-take, All-sort_by,
  All-imp, All-and, All-select, ok,
}
use os_scanner.Storage.Runtime.{Runtime}
use os_scanner.Storage.Uploads.{Upload, Storage, find_upload, is_pending}
use os_scanner.Storage.Uploads.Table.{
  IsRow, IsTable, IsTable-Finds, IsTable-rows, update-IsTable, find-update,
}
use os_scanner.Storage.Uploads.Claim.{
  QueuedUpload, is_exhausted, is_abandoned, bury, revive, expire_leases, is_ready, select_ready,
  lease_row, claim_uploads,
}
use os_scanner.Storage.Uploads.LeaseRun.{LeaseRun, done, skip, grant, hits, claim_uploads-Claimed}
use os_scanner.Storage.Uploads.Invariant.{IsValid, update_rows, backfill-IsTable}

pub expire_leases-IsTable :
    (now : ℕ) (text : String) (hi : ℕ) (rows : List Upload)
    → IsTable 0 hi rows
    → IsTable 0 hi (expire_leases now text rows)
unfolding expire_leases
expire_leases-IsTable now text hi rows t =
    update_rows (is_abandoned now) (revive now text) (λ r hit k. ground arith) (λ r. refl) hi _
      (update_rows (is_exhausted now) (bury text) (λ r hit k. ground arith) (λ r. refl) hi rows t)

-- A selected row, as the rounds before its own leave it: it has an attempt left, and while the row
-- with its id is pending, it is that row.
pub record IsPicked (rows : List Upload) (row : Upload) : Type 0 where
  pub formed : IsRow row
  pub left : row.attempt_count < row.max_attempts
  pub current :
      (r : Upload) → find_upload row.upload_id rows ≡ some r → is_pending r.status ≡ true → r ≡ row

module _ (attempt until : ℕ) (token text : String) where
  pub lease_one-IsTable :
      (hi : ℕ) (rows : List Upload) (row : Upload)
      → attempt ≡ row.attempt_count + 1
      → IsPicked rows row
      → IsTable 0 hi rows
      → IsTable 0 hi (update (hits row) (lease_row attempt until token text) rows)
  unfolding lease_row
  lease_one-IsTable hi rows row same p t =
      update-IsTable (λ r. find_upload r.upload_id rows ≡ some r) (hits row)
        (lease_row attempt until token text)
        (λ r here hit k.
          let this : r ≡ row = p.current r (ground arith) (ground arith) in ground arith)
        (λ r. refl) 0 hi rows (IsTable-Finds 0 hi rows t) t

  pub lease_one-IsPicked :
      (rows : List Upload) (row other : Upload)
      → IsPicked rows other
      → IsPicked (update (hits row) (lease_row attempt until token text) rows) other
  unfolding lease_row
  lease_one-IsPicked rows row other p = record {
    formed = p.formed;
    left = p.left;
    current = λ r e pend. ground (
      arith,
      find-update (hits row) (lease_row attempt until token text) (λ x. refl) other.upload_id rows,
      p.current r,
    );
  }

-- What is known of each row of a well-formed table.
abbrev pub Known : ℕ → List Upload → Upload → Type 0
Known hi rows r = (IsRow r × (r.upload_id < hi)) × (find_upload r.upload_id rows ≡ some r)

pub IsTable-Known : (hi : ℕ) (rows : List Upload) → IsTable 0 hi rows → All (Known hi rows) rows
IsTable-Known hi rows t = All-and _ _ rows (IsTable-rows 0 hi rows t) (IsTable-Finds 0 hi rows t)

-- What holds of every ready row of a well-formed table holds of the rows that the SELECT returns.
pub select_ready-All {κ} :
    (P : Upload → Type κ) (now limit hi : ℕ) (rows : List Upload)
    → IsTable 0 hi rows
    → ((r : Upload) → Known hi rows r → is_ready rows now r ≡ true → P r)
    → All P (select_ready now limit rows)
unfolding select_ready
select_ready-All P now limit hi rows t f = All-take P limit _ (
    All-sort_by P (λ r. r.next_attempt_at) _
      (All-select (Known hi rows) P (is_ready rows now) rows f (IsTable-Known hi rows t)))

pub select_ready-IsPicked :
    (now limit hi : ℕ) (rows : List Upload)
    → IsTable 0 hi rows
    → All (IsPicked rows) (select_ready now limit rows)
select_ready-IsPicked now limit hi rows t =
    select_ready-All (IsPicked rows) now limit hi rows t λ r known ready. record {
      formed = (known.0).0;
      left = ground arith;
      current = λ x e pend. cc (known.1);
    }

module _ (lib : Runtime) (uuid : ℕ → String) (now lease : ℕ) (text : String) where
  pub LeaseRun-IsTable :
      (hi : ℕ) {rows todo rows' : List Upload} {qs : List QueuedUpload}
      → LeaseRun lib uuid now lease text rows todo qs rows'
      → All (IsPicked rows) todo
      → IsTable 0 hi rows
      → IsTable 0 hi rows'
  LeaseRun-IsTable hi (done rows) p t = t
  LeaseRun-IsTable hi (skip row miss run) p t = LeaseRun-IsTable hi run p.1 t
  LeaseRun-IsTable hi (grant {rows = rows} {rest = rest} row metadata hit parsed run) p t =
      LeaseRun-IsTable hi run
        (All-imp _ _ rest (λ x q. lease_one-IsPicked _ _ _ text rows row x q) p.1)
        (lease_one-IsTable _ _ _ text hi rows row refl p.0 t)

  pub claim_uploads-IsValid :
      (limit : ℕ) (s : Storage) {qs : List QueuedUpload} {s' : Storage}
      → claim_uploads lib uuid now lease text limit s ≡ ok (qs, s')
      → IsValid s
      → IsValid s'
  claim_uploads-IsValid limit s {qs} {s'} e t =
      let c = claim_uploads-Claimed lib uuid now lease text limit s qs s' e in
      let current =
        expire_leases-IsTable now text s.next_upload_id c.linked
          (backfill-IsTable lib _ s.uploads c.filled t) in
      let table =
        LeaseRun-IsTable s.next_upload_id c.run (select_ready-IsPicked now limit _ _ current)
          current in
      rw c.others table
