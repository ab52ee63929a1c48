-- ===== src/Storage/Uploads/Failing.antt =====
-- What a failure report by the holder of a lease does.
use os_scanner.Prelude.{
  ℕ, Bool, List, ◌||◌, ◌==◌, leb, false, ◌<◌, ◌≢◌, ◌⊎◌, ◌^◌, err, overflow_error, ◌+◌, ◌*◌, ◌-◌,
  ◌/◌, min, Option, ◌≤◌, String, ◌≡◌, refl, true, none, some, arith, find, find-All, Option-cases,
  Bool-cases, inl, inr, ok, update,
}
use os_scanner.Storage.Runtime.{Runtime, clean_error}
use os_scanner.Storage.Retry.{
  RetryPolicy, is_valid, default_policy, delay_for_attempt, largest, backoff, overflows, above,
  base_for_attempt-at,
}
use os_scanner.Storage.Identifier.{clean_text}
use os_scanner.Storage.Uploads.{
  Upload, Storage, Status, succeeded, pending, dead, in_flight, is_in_flight, is_leased_by, has_id,
  find_upload,
}
use os_scanner.Storage.Uploads.Settle.{
  Failure, policy_for, retry_at, is_terminal, fail_row, mark_upload_failed,
}
use os_scanner.Storage.Uploads.Table.{
  IsRow, LeaseOk, IsFound, find_upload-IsFound, Anything, All-Anything, find-update,
}
use os_scanner.Storage.Uploads.Invariant.{IsValid}

flying-tried : (r : Upload) → IsRow r → is_in_flight r.status ≡ true → 1 ≤ r.attempt_count
flying-tried r row h = tried r.status h row.leased
  where
    tried :
        (status : Status)
        → is_in_flight status ≡ true
        → LeaseOk status r.attempt_count r.leased_until r.lease_token r.delivered_at
        → 1 ≤ r.attempt_count
    tried pending h l = absurd (cc)
    tried in_flight h l = l.2
    tried succeeded h l = absurd (cc)
    tried dead h l = absurd (cc)

policy_for-some :
    (policy : Option RetryPolicy) (limit : ℕ)
    → 1 ≤ limit
    → limit ≤ 100
    → (p : RetryPolicy) × (policy_for policy limit ≡ ok p)
unfolding policy_for
policy_for-some (some p) limit lo hi = (p, refl)
policy_for-some none limit lo hi =
    (default_policy limit, unfold is_valid default_policy in ground arith)

-- The power that the backoff of an attempt takes is too large for a float.
abbrev pub IsOverflow : RetryPolicy → ℕ → Type 0
IsOverflow p attempt = largest * 100 ^ min (attempt - 1) 63 ≤ p.multiplier ^ min (attempt - 1) 63

delay_for_attempt-cases :
    (p : RetryPolicy) (attempt : ℕ) (draw : ℕ → ℕ)
    → 1 ≤ attempt
    → (IsOverflow p attempt × (delay_for_attempt p attempt draw ≡ err overflow_error))
      ⊎ ((d : ℕ) × (delay_for_attempt p attempt draw ≡ ok d))
unfolding delay_for_attempt
delay_for_attempt-cases p attempt draw tried =
    let e = min (attempt - 1) 63 in
    let base = base_for_attempt-at p attempt e refl in
    let delay = backoff p e in
    let jitter = delay * p.jitter_ratio / 100 in
    elim (Bool-cases (overflows p e)) [
      | inl big ↦ inl (above p e big, ground (arith, base, big))
      | inr fits ↦ inr (min p.max_delay (delay + draw jitter - jitter), ground (arith, base, fits))
    ]

-- A failure report asks for a delay that the policy cannot compute.
pub record IsRefused (f : Failure) (row : Upload) : Type 0 where
  pub retried : f.permanent ≡ false
  pub left : row.attempt_count < row.max_attempts
  pub unasked : f.retry_after ≡ none
  pub policy : RetryPolicy
  pub chosen : policy_for f.retry_policy row.max_attempts ≡ ok policy
  pub big : IsOverflow policy row.attempt_count

-- A row that was tried has a time for the next attempt, unless the backoff overflows.
retry_at-cases :
    (f : Failure) (now : ℕ) (row : Upload)
    → IsRow row
    → 1 ≤ row.attempt_count
    → is_terminal f row ≡ false
    → (IsRefused f row × (retry_at f now row ≡ err overflow_error))
      ⊎ ((d : ℕ) × (retry_at f now row ≡ ok (now + d)))
unfolding retry_at
retry_at-cases f now row known tried again = elim (Option-cases f.retry_after) [
  | inr (seconds, given) ↦ inr (seconds, rw given refl)
  | inl unasked ↦
      let (p, chosen) =
        policy_for-some f.retry_policy row.max_attempts known.positive known.capped in
      elim (delay_for_attempt-cases p row.attempt_count f.draw tried) [
        | inl (big, raised) ↦ inl (
          record {
            retried = ground (arith, again);
            left = ground (arith, again);
            unasked = unasked;
            policy = p;
            chosen = chosen;
            big = big;
          },
          rw (unasked, chosen, raised) refl,
        )
        | inr (d, drawn) ↦ inr (d, rw (unasked, chosen, drawn) refl)
      ]
]

-- The upload is given up if the failure is permanent or was the last attempt allowed, and else waits.
abbrev pub IsDecided : Failure → Upload → Status → Type 0
IsDecided f row status =
    ((status ≡ dead) × ((f.permanent ≡ true) ⊎ (row.max_attempts ≤ row.attempt_count)))
    ⊎ ((status ≡ pending) × (f.permanent ≡ false) × (row.attempt_count < row.max_attempts))

-- The row has the status and no lease, keeps its attempts and is not due before now; other rows stay.
pub record IsFailed (id now : ℕ) (row : Upload) (status : Status) (s s' : Storage) : Type 0 where
  pub after : Upload
  pub found : find_upload id s'.uploads ≡ some after
  pub marked : after.status ≡ status
  pub unleased : (after.lease_token ≡ none) × (after.leased_until ≡ none)
  pub counted : after.attempt_count ≡ row.attempt_count
  pub due : now ≤ after.next_attempt_at
  pub others : (other : ℕ) → other ≢ id → find_upload other s'.uploads ≡ find_upload other s.uploads

-- A change of the rows with one id leaves the others.
pub update-others :
    (id : ℕ) (test : Upload → Bool) (f : Upload → Upload)
    → ((r : Upload) → (f r).upload_id ≡ r.upload_id)
    → ((r : Upload) → test r ≡ true → r.upload_id ≡ id)
    → (rows : List Upload) (other : ℕ) → other ≢ id
    → find_upload other (update test f rows) ≡ find_upload other rows
unfolding find_upload
update-others id test f same own rows other differ =
    elim (Option-cases (find (has_id other) rows)) [
      | inl absent ↦ ground (arith, find-update test f same other rows, absent)
      | inr (r, found) ↦
          let hit : (r.upload_id == other) ≡ true =
            (find-All Anything (has_id other) rows r (All-Anything rows) found).1 in
          let apart : test r ≡ false = elim (Bool-cases (test r)) [
            | inl touched ↦ absurd (ground (arith, hit, differ, own r touched))
            | inr apart ↦ apart
          ] in
          ground (arith, find-update test f same other rows, found, apart)
    ]

last_attempt :
    (permanent : Bool) (limit count : ℕ)
    → (permanent || leb limit count) ≡ true
    → (permanent ≡ true) ⊎ (limit ≤ count)
last_attempt true limit count h = inl refl
last_attempt false limit count h = inr (ground (arith, h))

module _ (lib : Runtime) (now : ℕ) (text : String) (id : ℕ) (f : Failure) (s : Storage)
    (row : Upload) where
  -- The tables after a failure report.
  abbrev failed_storage : Status → ℕ → Storage
  failed_storage status at = record s {
    uploads = update (has_id id) (fail_row status at (clean_error lib f.error 1024) text) s.uploads;
  }

  failed_storage-IsFailed :
      (status : Status) (at : ℕ)
      → IsFound s.next_upload_id s.uploads row
      → row.upload_id ≡ id
      → now ≤ at
      → IsFailed id now row status s (failed_storage status at)
  failed_storage-IsFailed status at known own late =
      let f = fail_row status at (clean_error lib f.error 1024) text in
      let looked = find-update (has_id id) f (λ r. unfold fail_row in refl) in
      record {
        after = f row;
        found = ground (arith, looked id s.uploads, known.here, own);
        marked = unfold fail_row in refl;
        unleased = unfold fail_row in (refl, refl);
        counted = unfold fail_row in refl;
        due = unfold fail_row in late;
        others = λ other differ.
            update-others id (has_id id) f (λ r. unfold fail_row in refl)
              (λ r hit. ground (arith, hit)) s.uploads other differ;
      }

-- In a well-formed table the holder of a lease reports a failure. The upload is then dead if the failure
-- is permanent or was the last attempt allowed, and pending otherwise; its lease has ended and it is not
-- due before now; the other uploads are as before. The report is refused only if the upload is to be
-- tried again, no delay was asked for, and the policy's backoff raises OverflowError.
pub mark_upload_failed_returns :
    (lib : Runtime) (now : ℕ) (text : String) (id : ℕ) (lease_token token : String) (f : Failure)
    (s : Storage) (row : Upload)
    → IsValid s
    → clean_text lease_token 256 ≡ ok token
    → find (is_leased_by id token) s.uploads ≡ some row
    → (IsRefused f row × (mark_upload_failed lib now text id lease_token f s ≡ err overflow_error))
      ⊎ ((status : Status) × (s' : Storage) × (mark_upload_failed lib now text id lease_token f s
            ≡ ok (status, s'))
          × IsDecided f row status
          × IsFailed id now row status s s')
unfolding mark_upload_failed
mark_upload_failed_returns lib now text id lease_token token f s row valid clean found =
    let known =
      find_upload-IsFound (is_leased_by id token) s.next_upload_id s.uploads row valid found in
    let leased =
      (find-All Anything (is_leased_by id token) s.uploads row (All-Anything s.uploads) found).1 in
    let own : row.upload_id ≡ id = ground (arith, leased) in
    let tried = flying-tried row known.row (ground (arith, leased)) in
    let after = failed_storage lib now text id f s row in
    let kept = failed_storage-IsFailed lib now text id f s row in
    elim (Bool-cases (is_terminal f row)) [
      | inl terminal ↦ inr (
        dead,
        after dead now,
        rw (clean, found, terminal) refl,
        inl (refl, last_attempt f.permanent row.max_attempts row.attempt_count terminal),
        kept dead now known own (omega arith),
      )
      | inr again ↦ elim (retry_at-cases f now row known.row tried again) [
        | inl (refused, raised) ↦ inl (refused, rw (clean, found, again, raised) refl)
        | inr (d, next) ↦ inr (
          pending,
          after pending (now + d),
          rw (clean, found, again, next) refl,
          inr (refl, ground (arith, again), ground (arith, again)),
          kept pending (now + d) known own (omega arith),
        )
      ]
    ]
