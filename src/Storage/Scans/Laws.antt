-- ===== src/Storage/Scans/Laws.antt =====
-- create_scan_job under a known identifier.
use os_scanner.Prelude.{
  String, ◌≡◌, refl, ap, sym, Bool, true, false, Option, none, some, List, [], ◌∷◌, ◌++◌, arith,
  str_eq, str_eq_refl, eq_iff, if◌then◌else◌, Bool-cases, Option-cases, inl, inr, subst, ok, err,
  find, any, update, >>=-eq-ok, ok-injective, idempotency_conflict,
}
use os_scanner.Json.{object, Fields}
use os_scanner.Storage.Runtime.{Runtime, hash_text}
use os_scanner.Storage.Scans.{
  Job, Tables, Values, is_endpoint, is_job, find_job, ensure_endpoint, ensure_owner, bare_endpoint,
}
use os_scanner.Storage.Scans.Jobs.{
  JobColumns, read_job, replace_job, write_job, create_scan_job, empty_job,
}

module _ {ℓ} {A : Type ℓ} (p : A → Bool) where
  find-snoc : (xs : List A) (x : A) → find p xs ≡ none → p x ≡ true → find p (xs ++ x ∷ []) ≡ some x
  unfolding find
  find-snoc [] x e h = rw (h) refl
  find-snoc (y ∷ ys) x e h = elim (Bool-cases (p y)) [
    | inl g ↦ absurd (ground (arith, g, e))
    | inr g ↦ rw (g) (find-snoc ys x (rw (g) at e) h)
  ]

  find-update :
      (xs : List A) (old new : A)
      → find p xs ≡ some old
      → p new ≡ true
      → find p (update p (λ (j : A). new) xs) ≡ some new
  unfolding find update
  find-update [] old new e h = absurd (cc)
  find-update (y ∷ ys) old new e h = elim (Bool-cases (p y)) [
    | inl g ↦ rw (g, h) refl
    | inr g ↦ rw (g, g) (find-update ys old new (rw (g) at e) h)
  ]

  any-snoc : (xs : List A) (x : A) → p x ≡ true → any p (xs ++ x ∷ []) ≡ true
  unfolding any
  any-snoc [] x h = rw (h) refl
  any-snoc (y ∷ ys) x h = ground (arith, any-snoc ys x h)

module _ (lib : Runtime) (values : Values) where
  -- An endpoint that was made sure of is known.
  abbrev OwnerIsKnown : Option String → Tables → Type 0
  OwnerIsKnown none t = Unit
  OwnerIsKnown (some id) t = any (is_endpoint id) t.endpoints ≡ true

  ensure_owner-known :
      (o : Option String) (now : String) (t : Tables) → OwnerIsKnown o (ensure_owner lib o now t)
  unfolding ensure_endpoint
  ensure_owner-known none now t = tt
  ensure_owner-known (some id) now t = elim (Bool-cases (any (is_endpoint id) t.endpoints)) [
    | inl h ↦ rw (h) h
    | inr h ↦
        rw (h) (any-snoc (is_endpoint id) t.endpoints (bare_endpoint lib id now) (str_eq_refl id))
  ]

  ensure_owner-idle :
      (o : Option String) (now : String) (t : Tables)
      → OwnerIsKnown o t
      → ensure_owner lib o now t ≡ t
  unfolding ensure_endpoint
  ensure_owner-idle none now t h = refl
  ensure_owner-idle (some id) now t h = rw (h) refl

  replace_job-columns :
      (c : JobColumns lib values) (old : Job) {new : Job}
      → replace_job lib values c old ≡ ok new
      → (new.scan_id ≡ old.scan_id)
        × (new.scan_type ≡ c.scan_type)
        × (new.job_hash ≡ hash_text lib c.job_json)
  unfolding replace_job
  replace_job-columns c old e =
      let (a, _, e1) = >>=-eq-ok (values.bind c.policy) _ e in
      let (b, _, e2) = >>=-eq-ok (values.bind c.initiator) _ e1 in
      let (d, _, e3) = >>=-eq-ok (values.bind c.target) _ e2 in
      let same = sym (ok-injective e3) in
      (ap (λ j. j.scan_id) same, ap (λ j. j.scan_type) same, ap (λ j. j.job_hash) same)

  -- The job is in the tables under its identifier, with its content.
  abbrev Wrote : JobColumns lib values → Tables → Type 0
  Wrote c t =
      OwnerIsKnown c.endpoint_id t
      × ((j : Job) × (find_job c.scan_id t ≡ some j)
          × ((str_eq j.scan_type "UNKNOWN" ≡ false))
          × (j.job_hash ≡ hash_text lib c.job_json))

  is_job-found : (id : String) (t : Tables) (j : Job) → find_job id t ≡ some j → is_job id j ≡ true
  unfolding find_job
  is_job-found id t j e = go t.jobs e
    where
      go : (xs : List Job) → find (is_job id) xs ≡ some j → is_job id j ≡ true
      go [] e = absurd (unfold find in cc)
      go (x ∷ xs) e = elim (Bool-cases (is_job id x)) [
        | inl h ↦ unfold find in ground (arith, h, e)
        | inr h ↦ go xs (unfold find in ground (arith, h, e))
      ]

  write_job-Wrote :
      (c : JobColumns lib values) (t0 : Tables) {b : Bool} {t' : Tables}
      → str_eq c.scan_type "UNKNOWN" ≡ false
      → write_job lib values c t0 ≡ ok (b, t')
      → Wrote c t'
  unfolding write_job
  write_job-Wrote c t0 {b} {t'} known e =
      let t : Tables = ensure_owner lib c.endpoint_id c.requested_at t0 in
      let owner = ensure_owner-known c.endpoint_id c.requested_at t0 in
      elim (Option-cases (find_job c.scan_id t)) [
        | inl f ↦
            let (new, made, e1) =
              >>=-eq-ok (replace_job lib values c (empty_job lib values c.scan_id)) _
                (rw (f, write_job) at e) in
            let (i, k, h) = replace_job-columns c (empty_job lib values c.scan_id) made in
            let same : record t { jobs = t.jobs ++ new ∷ [] } ≡ t' =
              ap (λ x. x.1) (ok-injective e1) in
            subst (Wrote c) same (
              owner_kept c.endpoint_id t (record t { jobs = t.jobs ++ new ∷ [] }) refl owner,
              (
                new,
                unfold find_job in
                    find-snoc (is_job c.scan_id) t.jobs new (unfold find_job in f)
                      (rw (i, str_eq_refl c.scan_id) refl),
                rw (k) known,
                h,
              ),
            )
        | inr (old, f) ↦ elim (Bool-cases (str_eq old.scan_type "UNKNOWN")) [
          | inl u ↦
              let (new, made, e1) =
                >>=-eq-ok (replace_job lib values c old) _ (rw (f, write_job, u) at e) in
              let (i, k, h) = replace_job-columns c old made in
              let same : record t { jobs = update (is_job c.scan_id) (λ (j : Job). new) t.jobs }
                  ≡ t' =
                ap (λ x. x.1) (ok-injective e1) in
              subst (Wrote c) same (
                owner_kept c.endpoint_id t
                    (record t { jobs = update (is_job c.scan_id) (λ (j : Job). new) t.jobs }) refl
                    owner,
                (
                  new,
                  unfold find_job in
                      find-update (is_job c.scan_id) t.jobs old new (unfold find_job in f)
                        (rw (i) (is_job-found c.scan_id t old f)),
                  rw (k) known,
                  h,
                ),
              )
          | inr u ↦ elim (Bool-cases (str_eq old.job_hash (hash_text lib c.job_json))) [
            | inl g ↦
                let same : t ≡ t' = ap (λ x. x.1) (ok-injective (rw (f, write_job, u, g) at e)) in
                subst (Wrote c) same
                  (owner, (old, f, u, (eq_iff old.job_hash (hash_text lib c.job_json)).0 g))
            | inr g ↦ absurd (ground (arith, f, u, g, e))
          ]
        ]
      ]
    where
      owner_kept :
          (o : Option String) (t s : Tables)
          → s.endpoints ≡ t.endpoints
          → OwnerIsKnown o t
          → OwnerIsKnown o s
      owner_kept none t s h k = tt
      owner_kept (some id) t s h k = rw (h) k

  -- What a job written before answers to the same columns, and to others under its identifier.
  write_job-Wrote-again :
      (c d : JobColumns lib values) (t : Tables)
      → Wrote c t
      → d.scan_id ≡ c.scan_id
      → d.endpoint_id ≡ c.endpoint_id
      → write_job lib values d t ≡ (
          if str_eq (hash_text lib c.job_json) (hash_text lib d.job_json)
          then ok (false, t)
          else err idempotency_conflict)
  unfolding write_job
  write_job-Wrote-again c d t w i o =
      let (j, f, u, h) = w.1 in
      let idle : ensure_owner lib d.endpoint_id d.requested_at t ≡ t =
        ensure_owner-idle d.endpoint_id d.requested_at t (rw (o) w.0) in
      let found : find_job d.scan_id (ensure_owner lib d.endpoint_id d.requested_at t) ≡ some j =
        rw (idle, i) f in
      rw (found, write_job, u, h, idle) refl

  -- After a job was accepted whose type is not the placeholder's, any job with its identifier and its
  -- endpoint either has the same content, by its hash, and then nothing is created and the tables stay
  -- as they are, or raises IdempotencyConflictError.
  pub create_scan_job_once :
      (job other : Fields) (now later : String) (c d : JobColumns lib values) (t : Tables)
      {b : Bool} {t' : Tables}
      → read_job lib values job now ≡ ok c
      → create_scan_job lib values (object job) now t ≡ ok (b, t')
      → str_eq c.scan_type "UNKNOWN" ≡ false
      → read_job lib values other later ≡ ok d
      → d.scan_id ≡ c.scan_id
      → d.endpoint_id ≡ c.endpoint_id
      → create_scan_job lib values (object other) later t' ≡ (
          if str_eq (hash_text lib c.job_json) (hash_text lib d.job_json)
          then ok (false, t')
          else err idempotency_conflict)
  unfolding create_scan_job
  create_scan_job_once job other now later c d t {t' = t'} r e known r' i o =
      rw (r') (write_job-Wrote-again c d t' (write_job-Wrote c t known (rw (r) at e)) i o)
