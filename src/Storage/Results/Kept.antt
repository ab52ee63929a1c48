-- ===== src/Storage/Results/Kept.antt =====
-- store_snapshot and the content addresses of the stored snapshots.
use os_scanner.Prelude.{
  ℕ, ◌+◌, ◌<◌, String, ◌≡◌, refl, ap, Bool, true, ◌&&◌, some, List, [], ◌∷◌, ◌++◌, arith, str_eq,
  str_eq_refl, Bool-cases, Option-cases, inl, inr, subst, ok, find, any, All, All-imp, >>=-eq-ok,
  ok-injective, length,
}
use os_scanner.Json.{Json, object, Fields}
use os_scanner.Storage.Runtime.{Runtime, hash_text}
use os_scanner.Storage.Identifier.{clean_text}
use os_scanner.Storage.Snapshots.{normalize_snapshot}
use os_scanner.Storage.Scans.{
  Payload, SnapshotRow, Tables, ensure_endpoint, ensure_scan, ensure_owner,
}
use os_scanner.Storage.Results.{SnapshotChange, deserialize_change, has_hash, is_of_scan}
use os_scanner.Storage.Results.Store.{
  Versions, keep_payload, latest_snapshot, base_of, insert_snapshot, write_snapshot, store_snapshot,
}

All-snoc {ℓ κ} :
    {A : Type ℓ} (P : A → Type κ) (xs : List A) (x : A) → All P xs → P x → All P (xs ++ x ∷ [])
All-snoc P [] x h p = (p, tt)
All-snoc P (y ∷ ys) x h p = (h.0, All-snoc P ys x h.1 p)

any-append {ℓ} :
    {A : Type ℓ} (p : A → Bool) (xs : List A) (x : A)
    → any p xs ≡ true
    → any p (xs ++ x ∷ []) ≡ true
unfolding any
any-append p [] x h = absurd (cc)
any-append p (y ∷ ys) x h = ground (arith, any-append p ys x)

any-last {ℓ} :
    {A : Type ℓ} (p : A → Bool) (xs : List A) (x : A) → p x ≡ true → any p (xs ++ x ∷ []) ≡ true
unfolding any
any-last p [] x h = rw (h) refl
any-last p (y ∷ ys) x h = ground (arith, any-last p ys x h)

module _ (lib : Runtime) where
  -- Every payload stands under the hash of its text, every snapshot has its payload, and no snapshot
  -- has an identifier that is still to be given.
  pub record IsKept (payloads : List Payload) (snapshots : List SnapshotRow) (next : ℕ)
      : Type 0 where
    pub hashed : All (λ (p : Payload). p.payload_hash ≡ hash_text lib p.payload_json) payloads
    pub stored : All (λ (r : SnapshotRow). any (has_hash r.payload_hash) payloads ≡ true) snapshots
    pub numbered : All (λ (r : SnapshotRow). r.snapshot_id < next) snapshots

  abbrev pub TablesAreKept : Tables → Type 0
  TablesAreKept t = IsKept t.payloads t.snapshots t.next_snapshot_id

  ensure_endpoint-kept :
      (id now : String) (t : Tables)
      → TablesAreKept t
      → TablesAreKept (ensure_endpoint lib id now t)
  unfolding ensure_endpoint
  ensure_endpoint-kept id now t h =
      elim (Bool-cases (any (os_scanner.Storage.Scans.is_endpoint id) t.endpoints)) [
        | inl e ↦ rw (e) h
        | inr e ↦ rw (e) h
      ]

  ensure_scan-kept :
      (scan_id owner now : String) (t : Tables)
      → TablesAreKept t
      → TablesAreKept (ensure_scan lib scan_id (some owner) now t)
  unfolding ensure_scan
  ensure_scan-kept scan_id owner now t h =
      let made : Tables = ensure_endpoint lib owner now t in
      let k : TablesAreKept made = ensure_endpoint-kept owner now t h in
      elim (Bool-cases (any (os_scanner.Storage.Scans.is_job scan_id) made.jobs)) [
        | inl e ↦ rw (e) k
        | inr e ↦ rw (e) k
      ]

  keep_payload-IsKept :
      (p : Payload) (t : Tables)
      → p.payload_hash ≡ hash_text lib p.payload_json
      → TablesAreKept t
      → IsKept (keep_payload p t).payloads t.snapshots t.next_snapshot_id
        × (any (has_hash p.payload_hash) (keep_payload p t).payloads ≡ true)
  unfolding keep_payload
  keep_payload-IsKept p t e h = elim (Bool-cases (any (has_hash p.payload_hash) t.payloads)) [
    | inl g ↦ rw (g) (h, g)
    | inr g ↦ rw (g) (
      record {
        hashed =
            All-snoc (λ (q : Payload). q.payload_hash ≡ hash_text lib q.payload_json) t.payloads p
              h.hashed e;
        stored =
            All-imp (λ (r : SnapshotRow). any (has_hash r.payload_hash) t.payloads ≡ true)
              (λ (r : SnapshotRow). any (has_hash r.payload_hash) (t.payloads ++ p ∷ []) ≡ true)
              t.snapshots (λ r k. any-append (has_hash r.payload_hash) t.payloads p k) h.stored;
        numbered = h.numbered;
      },
      any-last (has_hash p.payload_hash) t.payloads p (str_eq_refl p.payload_hash),
    )
  ]

  -- A new row with the next identifier and a stored payload.
  add_row-IsKept :
      (payloads : List Payload) (snapshots : List SnapshotRow) (next : ℕ) (row : SnapshotRow)
      → IsKept payloads snapshots next
      → any (has_hash row.payload_hash) payloads ≡ true
      → row.snapshot_id ≡ next
      → IsKept payloads (snapshots ++ row ∷ []) (next + 1)
  add_row-IsKept payloads snapshots next row h has is = record {
    hashed = h.hashed;
    stored =
        All-snoc (λ (r : SnapshotRow). any (has_hash r.payload_hash) payloads ≡ true) snapshots row
          h.stored has;
    numbered =
        All-snoc (λ (r : SnapshotRow). r.snapshot_id < next + 1) snapshots row
          (All-imp (λ (r : SnapshotRow). r.snapshot_id < next)
            (λ (r : SnapshotRow). r.snapshot_id < next + 1) snapshots (λ r k. omega (arith, k))
            h.numbered)
          (omega (arith, is));
  }

  module _ (same_number : Json → Json → Bool) where
    insert_snapshot-kept :
        (owner scan : String) (n : Fields) (v : Versions) (now : String) (t : Tables)
        {c : SnapshotChange} {t' : Tables}
        → TablesAreKept t
        → insert_snapshot lib same_number owner scan n v now t ≡ ok (c, t')
        → TablesAreKept t'
    unfolding insert_snapshot
    insert_snapshot-kept owner scan n v now t h e =
        let (previous, _, e1) = >>=-eq-ok (latest_snapshot lib same_number owner t) _ e in
        let (base, _, e2) = >>=-eq-ok (base_of previous) _ e1 in
        let payload : Payload = record {
          payload_hash = hash_text lib (lib.canonical_json (object n));
          payload_json = lib.canonical_json (object n);
          size_bytes = length (lib.encode (lib.canonical_json (object n)));
          created_at = now;
        } in
        let (kept, has) = keep_payload-IsKept payload t refl h in
        subst TablesAreKept (ap (λ x. x.1) (ok-injective e2)) (
          add_row-IsKept (keep_payload payload t).payloads t.snapshots t.next_snapshot_id _ kept has
            refl)

    write_snapshot-kept :
        (owner scan : String) (n : Fields) (v : Versions) (now : String) (t0 : Tables)
        {c : SnapshotChange} {t' : Tables}
        → TablesAreKept t0
        → write_snapshot lib same_number owner scan n v now t0 ≡ ok (c, t')
        → TablesAreKept t'
    unfolding write_snapshot
    write_snapshot-kept owner scan n v now t0 h e =
        let t : Tables = ensure_scan lib scan (some owner) now (ensure_endpoint lib owner now t0) in
        let k : TablesAreKept t =
          ensure_scan-kept scan owner now (ensure_endpoint lib owner now t0)
            (ensure_endpoint-kept owner now t0 h) in
        elim (Option-cases (find (is_of_scan scan) t.snapshots)) [
          | inl f ↦ insert_snapshot-kept owner scan n v now t k (rw (f, write_snapshot) at e)
          | inr (row, f) ↦
              elim (Bool-cases (
                str_eq row.endpoint_id owner
                && str_eq row.payload_hash (hash_text lib (lib.canonical_json (object n))))) [
                  | inl g ↦
                      let (change, _, e1) =
                        >>=-eq-ok (deserialize_change lib row t owner scan) _
                          (rw (f, write_snapshot, g) at e) in
                      subst TablesAreKept (ap (λ x. x.1) (ok-injective e1)) k
                  | inr g ↦ absurd (ground (arith, f, g, e))
                ]
        ]

    -- A stored snapshot leaves the store content-addressed: every payload stands under the hash of its
    -- text, every snapshot row has its payload, and the next identifier is above all that are given.
    -- This holds of every call that returns, on a new scan and on one whose snapshot is known.
    pub store_snapshot-kept :
        (owner scan : String) (snapshot : Json) (v : Versions) (now : String) (t : Tables)
        {c : SnapshotChange} {t' : Tables}
        → TablesAreKept t
        → store_snapshot lib same_number owner scan snapshot v now t ≡ ok (c, t')
        → TablesAreKept t'
    unfolding store_snapshot
    store_snapshot-kept owner scan snapshot v now t h e =
        let (id, _, e1) = >>=-eq-ok (clean_text owner 256) _ e in
        let (scan_id, _, e2) = >>=-eq-ok (clean_text scan 256) _ e1 in
        let (schema, _, e3) = >>=-eq-ok (clean_text v.schema_version 64) _ e2 in
        let (n, _, e4) = >>=-eq-ok (normalize_snapshot lib snapshot) _ e3 in
        write_snapshot-kept id scan_id n (record v { schema_version = schema }) now t h e4
