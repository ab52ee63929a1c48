-- ===== src/Storage/Uploads/Table.antt =====
-- The table of uploads as a structure: rows in the order of distinct ids, each row well formed, and
-- what updates, insertions and deletions do to it.
use os_scanner.Prelude.{
  ℕ, suc, ◌≤◌, ◌<◌, String, ◌≡◌, refl, Bool, true, Option, none, some, List, [], ◌∷◌, ◌++◌, arith,
  ◌⊎◌, IsSome, if◌then◌else◌, find, find-All, select, update, All, map, inl, inr, Bool-cases,
}
use mathlib.Core.Option
use os_scanner.Storage.Uploads.{Upload, Status, pending, in_flight, succeeded, dead, find_upload}

-- A lease and an attempt are recorded in flight, a delivery time for what was delivered, and no
-- lease in any other state.
abbrev pub LeaseOk : Status → ℕ → Option ℕ → Option String → Option String → Type 0
LeaseOk in_flight tried until token delivered = IsSome until × IsSome token × (1 ≤ tried)
LeaseOk succeeded tried until token delivered = (until ≡ none) × (token ≡ none) × IsSome delivered
LeaseOk pending tried until token delivered = (until ≡ none) × (token ≡ none)
LeaseOk dead tried until token delivered = (until ≡ none) × (token ≡ none)

-- A reference to an earlier row.
abbrev pub Earlier : ℕ → Option ℕ → Type 0
Earlier id none = Unit
Earlier id (some p) = p < id

pub record IsRow (r : Upload) : Type 0 where
  pub limited : r.attempt_count ≤ r.max_attempts
  pub positive : 1 ≤ r.max_attempts
  pub capped : r.max_attempts ≤ 100
  pub leased : LeaseOk r.status r.attempt_count r.leased_until r.lease_token r.delivered_at
  pub after : Earlier r.upload_id r.predecessor
  pub recovers : Earlier r.upload_id r.resync_for
  pub replaced : (r.superseded_by ≡ none) ⊎ (r.status ≡ dead)

-- Rows with rising ids from `lo`, all below `hi`.
abbrev pub IsTable : ℕ → ℕ → List Upload → Type 0
IsTable lo hi [] = Unit {0}
IsTable lo hi (r ∷ rs) =
    (lo ≤ r.upload_id) × (r.upload_id < hi) × IsRow r × IsTable (suc r.upload_id) hi rs

-- A lower bound of the ids may be lowered.
abbrev Above : ℕ → List Upload → Type 0
Above lo rows = All (λ r. lo ≤ r.upload_id) rows

Above-mono : (a b : ℕ) (rows : List Upload) → a ≤ b → Above b rows → Above a rows
Above-mono a b [] h t = tt
Above-mono a b (r ∷ rs) h t = (omega arith, Above-mono a b rs h t.1)

pub IsTable-Above : (lo hi : ℕ) (rows : List Upload) → IsTable lo hi rows → Above lo rows
IsTable-Above lo hi [] t = tt
IsTable-Above lo hi (r ∷ rs) t = (
  t.0,
  Above-mono lo (suc r.upload_id) rs (omega arith) (IsTable-Above (suc r.upload_id) hi rs t.3),
)

-- A row is what the lookup of its id finds.
abbrev pub Finds : List Upload → List Upload → Type 0
Finds rows = All (λ r. find_upload r.upload_id rows ≡ some r)

find-skip :
    (r : Upload) (all rows : List Upload)
    → Above (suc r.upload_id) rows
    → Finds all rows
    → Finds (r ∷ all) rows
unfolding find_upload
find-skip r all [] a f = tt
find-skip r all (x ∷ xs) a f = (ground arith, find-skip r all xs a.1 f.1)

pub IsTable-Finds : (lo hi : ℕ) (rows : List Upload) → IsTable lo hi rows → Finds rows rows
unfolding find_upload
IsTable-Finds lo hi [] t = tt
IsTable-Finds lo hi (r ∷ rs) t = (
  ground arith,
  find-skip r rs rs (IsTable-Above _ _ rs t.3) (IsTable-Finds (suc r.upload_id) hi rs t.3),
)

-- Every found row is well formed and below the next id.
pub find-IsRow :
    (lo hi id : ℕ) (rows : List Upload) (r : Upload)
    → IsTable lo hi rows
    → find_upload id rows ≡ some r
    → IsRow r × (r.upload_id ≡ id) × (id < hi)
unfolding find_upload
find-IsRow lo hi id [] r t e = absurd (cc)
find-IsRow lo hi id (x ∷ xs) r t e = ground (arith, find-IsRow (suc x.upload_id) hi id xs r t.3)

-- An update keeps the table well formed, if it keeps each row that it touches well formed. `Q` is
-- what is known of the rows besides.
pub update-IsTable {ℓ} :
    (Q : Upload → Type ℓ) (test : Upload → Bool) (f : Upload → Upload)
    → ((r : Upload) → Q r → test r ≡ true → IsRow r → IsRow (f r))
    → ((r : Upload) → (f r).upload_id ≡ r.upload_id)
    → (lo hi : ℕ) (rows : List Upload) → All Q rows
    → IsTable lo hi rows
    → IsTable lo hi (update test f rows)
unfolding update
update-IsTable Q test f keeps same lo hi [] q t = tt
update-IsTable Q test f keeps same lo hi (r ∷ rs) q t =
    let rest = update-IsTable Q test f keeps same (suc r.upload_id) hi rs q.1 t.3 in
    elim (Bool-cases (test r)) [
      | inl hit ↦ rw hit (simp (same r) (t.0, t.1, keeps r q.0 hit t.2, rest))
      | inr miss ↦ rw miss (t.0, t.1, t.2, rest)
    ]

-- A row with the next id may be added at the end.
pub append-IsTable :
    (lo hi : ℕ) (rows : List Upload) (new : Upload)
    → IsTable lo hi rows
    → lo ≤ hi
    → new.upload_id ≡ hi
    → IsRow new
    → IsTable lo (suc hi) (rows ++ new ∷ [])
append-IsTable lo hi [] new t h e n = (omega arith, omega arith, n, tt)
append-IsTable lo hi (r ∷ rs) new t h e n =
    (t.0, omega arith, t.2, append-IsTable (suc r.upload_id) hi rs new t.3 (omega arith) e n)

IsTable-mono : (a b hi : ℕ) (rows : List Upload) → a ≤ b → IsTable b hi rows → IsTable a hi rows
IsTable-mono a b hi [] h t = tt
IsTable-mono a b hi (r ∷ rs) h t = (omega arith, t.1, t.2, t.3)

-- A selection of the rows, each passed through a map that keeps ids and rows well formed.
pub delete-IsTable :
    (f : Upload → Upload) (test : Upload → Bool)
    → ((r : Upload) → IsRow r → IsRow (f r))
    → ((r : Upload) → (f r).upload_id ≡ r.upload_id)
    → (lo hi : ℕ) (rows : List Upload) → IsTable lo hi rows
    → IsTable lo hi (map f (select test rows))
unfolding select
delete-IsTable f test keeps same lo hi [] t = tt
delete-IsTable f test keeps same lo hi (r ∷ rs) t =
    let rest = delete-IsTable f test keeps same (suc r.upload_id) hi rs t.3 in
    elim (Bool-cases (test r)) [
      | inl kept ↦ rw kept (simp (same r) (t.0, t.1, keeps r t.2, rest))
      | inr gone ↦
          rw gone (IsTable-mono lo (suc r.upload_id) hi (map f (select test rs)) (omega arith) rest)
    ]

-- What a lookup finds after an update that keeps ids.
pub find-update :
    (test : Upload → Bool) (f : Upload → Upload)
    → ((r : Upload) → (f r).upload_id ≡ r.upload_id)
    → (id : ℕ) (rows : List Upload)
    → find_upload id (update test f rows)
      ≡ Option.map (λ r. if test r then f r else r) (find_upload id rows)
unfolding find_upload update
find-update test f same id [] = refl
find-update test f same id (r ∷ rs) = ground (arith, same r, find-update test f same id rs)

-- Without an update that is any row's own, nothing is known of the others.
abbrev pub Anything : Upload → Type 0
Anything r = Unit

pub All-Anything : (rows : List Upload) → All Anything rows
All-Anything [] = tt
All-Anything (r ∷ rs) = (tt, All-Anything rs)

pub IsTable-rows :
    (lo hi : ℕ) (rows : List Upload)
    → IsTable lo hi rows
    → All (λ r. IsRow r × (r.upload_id < hi)) rows
IsTable-rows lo hi [] t = tt
IsTable-rows lo hi (r ∷ rs) t = ((t.2, t.1), IsTable-rows (suc r.upload_id) hi rs t.3)

-- A row that some search of a well-formed table found.
pub record IsFound (hi : ℕ) (rows : List Upload) (r : Upload) : Type 0 where
  pub row : IsRow r
  pub below : r.upload_id < hi
  pub here : find_upload r.upload_id rows ≡ some r

pub find_upload-IsFound :
    (test : Upload → Bool) (hi : ℕ) (rows : List Upload) (r : Upload)
    → IsTable 0 hi rows
    → find test rows ≡ some r
    → IsFound hi rows r
find_upload-IsFound test hi rows r t e =
    let facts = (find-All _ test rows r (IsTable-rows 0 hi rows t) e).0 in
    record {
      row = facts.0;
      below = facts.1;
      here = (find-All _ test rows r (IsTable-Finds 0 hi rows t) e).0;
    }
