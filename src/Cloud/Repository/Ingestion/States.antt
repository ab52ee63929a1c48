-- ===== src/Cloud/Repository/Ingestion/States.antt =====
-- ingest_scan and the hashes of the inventory states.
use os_scanner.Prelude.{
  ℕ, String, ◌≡◌, refl, ap, sym, ◌∙◌, Bool, true, false, Option, none, some, List, arith, str_eq,
  str_eq_refl, eq_iff, Bool-cases, Option-cases, Result-cases, inl, inr, subst, ok, >>=-eq-ok,
  guarded, state_conflict, is_none, ok-injective,
}
use os_scanner.Json.{Json, Fields, get}
use os_scanner.Storage.Runtime.{Runtime}
use os_scanner.Cloud.Dict.{at_key, put, at_key-put_same, at_key-put_other}
use os_scanner.Cloud.Inventory.{InventoryState, reconstruct_inventory}
use os_scanner.Cloud.Inventory.Digest.{
  IsAddressed, HeldIsAddressed, reconstruct_inventory-IsAddressed,
}
use os_scanner.Cloud.Repository.{
  DevicePrincipal, AnalysisTask, Repository, ReplayKey, replay_or, remember, audit, after_checks,
  same_replay_key,
}
use os_scanner.Cloud.Repository.Scans.{owned_scan}
use os_scanner.Cloud.Repository.Ingestion.{
  Accepted, same_pair, validate_scan_upload, check_tasks, check_upload, store_upload, ingest_key,
  ingest_new, ingest_scan,
}

same_pair_refl : (k : String × String) → same_pair k k ≡ true
same_pair_refl (a, b) = rw (str_eq_refl a, str_eq_refl b) refl

same_pair-eq : (k l : String × String) → same_pair k l ≡ true → k ≡ l
same_pair-eq (a, b) (c, d) h =
    let x : a ≡ c = ground (arith, eq_iff a c) in
    let y : b ≡ d = ground (arith, eq_iff b d) in λ i. (x i, y i)

module _ (same_number : Json → Json → Bool) (fromisoformat : String → Option (Option ℕ))
    (lib : Runtime) (finite : String → Bool) where
  abbrev pub StatesAreAddressed : Repository → Type 0
  StatesAreAddressed s =
      (tenant_id endpoint_id : String) (state : InventoryState)
      → at_key same_pair (tenant_id, endpoint_id) s.inventory_states ≡ some state
      → IsAddressed lib finite state.snapshot_hash state.snapshot

  pub check_upload-reconstruction :
      (now : ℕ) (p : DevicePrincipal) (scan_id : String) (upload : Fields)
      (tasks : List AnalysisTask) (s : Repository) {a : Accepted same_number fromisoformat}
      → check_upload same_number fromisoformat lib finite now p scan_id upload tasks s ≡ ok a
      → (owned_scan p scan_id s ≡ ok a.record_before)
        × (a.record_before.upload ≡ none)
        × (reconstruct_inventory lib finite p.tenant_id p.endpoint_id scan_id
              (get "inventory_sync" upload)
              (at_key same_pair (p.tenant_id, p.endpoint_id) s.inventory_states)
              now
            ≡ ok a.reconstruction)
        × (check_tasks same_number fromisoformat p scan_id tasks s.tasks ≡ ok tt)
  unfolding check_upload
  check_upload-reconstruction now p scan_id upload tasks s {a} e =
      let (r, owned, e1) = >>=-eq-ok (owned_scan p scan_id s) _ e in
      let (fresh, e2) = guarded (is_none r.upload) state_conflict _ e1 in
      let (_, _, e3) =
        >>=-eq-ok (validate_scan_upload same_number fromisoformat r upload now) _ e2 in
      let (reconstruction, made, e4) =
        >>=-eq-ok
          (reconstruct_inventory lib finite p.tenant_id p.endpoint_id scan_id
            (get "inventory_sync" upload)
            (at_key same_pair (p.tenant_id, p.endpoint_id) s.inventory_states) now)
          _ e3 in
      let (_, known, e5) =
        >>=-eq-ok (check_tasks same_number fromisoformat p scan_id tasks s.tasks) _ e4 in
      let same = ok-injective e5 in
      (
        owned ∙ ap (λ x. ok x.record_before) same,
        sym (ap (λ x. x.record_before.upload) same) ∙ empty r.upload fresh,
        made ∙ ap (λ x. ok x.reconstruction) same,
        known,
      )
    where
      empty : (o : Option Fields) → is_none o ≡ true → o ≡ none
      empty none h = refl
      empty (some v) h = absurd (cc)

  held_state-IsAddressed :
      (tenant_id endpoint_id : String) (s : Repository)
      → StatesAreAddressed s
      → HeldIsAddressed lib finite (at_key same_pair (tenant_id, endpoint_id) s.inventory_states)
  held_state-IsAddressed tenant_id endpoint_id s h =
      elim (Option-cases (at_key same_pair (tenant_id, endpoint_id) s.inventory_states)) [
        | inl e ↦ rw (e) tt
        | inr (state, e) ↦ rw (e) (h tenant_id endpoint_id state e)
      ]

  -- Storing one addressed state keeps the others.
  put-StatesAreAddressed :
      (p : DevicePrincipal) (new : InventoryState) (s s' : Repository)
      → s'.inventory_states ≡ put same_pair (p.tenant_id, p.endpoint_id) new s.inventory_states
      → IsAddressed lib finite new.snapshot_hash new.snapshot
      → StatesAreAddressed s
      → StatesAreAddressed s'
  put-StatesAreAddressed p new s s' stored good h tenant_id endpoint_id state found =
      let key : String × String = (p.tenant_id, p.endpoint_id) in
      let asked : String × String = (tenant_id, endpoint_id) in
      let at : at_key same_pair asked (put same_pair key new s.inventory_states) ≡ some state =
        ap (at_key same_pair asked) (sym stored) ∙ found in
      elim (Bool-cases (same_pair key asked)) [
        | inl same ↦
            let here : some new ≡ some state =
              sym (at_key-put_same same_pair key new s.inventory_states (same_pair_refl key))
              ∙ ap (λ k. at_key same_pair k (put same_pair key new s.inventory_states))
                  (same_pair-eq key asked same)
              ∙ at in
            let is : new ≡ state = cc in
            subst (λ x. IsAddressed lib finite x.snapshot_hash x.snapshot) is good
        | inr other ↦ h tenant_id endpoint_id state (
            sym (
              at_key-put_other same_pair key asked new s.inventory_states (same_pair_refl key)
                (λ x g. subst (λ k. same_pair k asked ≡ false) (sym (same_pair-eq x key g)) other))
            ∙ at)
      ]

  ingest_new-StatesAreAddressed :
      (now at : ℕ) (p : DevicePrincipal) (scan_id : String) (upload : Fields)
      (tasks : List AnalysisTask) (replay : ReplayKey) (digest : String) (s : Repository)
      → StatesAreAddressed s
      → StatesAreAddressed
          (ingest_new same_number fromisoformat lib finite now at p scan_id upload tasks replay
            digest s).1
  unfolding ingest_new after_checks store_upload remember audit
  ingest_new-StatesAreAddressed now at p scan_id upload tasks replay digest s h =
      elim (Result-cases
        (check_upload same_number fromisoformat lib finite now p scan_id upload tasks s)) [
          | inr (error, e) ↦ rw (e, after_checks) h
          | inl (a, e) ↦
              let (_, _, made, _) = check_upload-reconstruction now p scan_id upload tasks s e in
              let (good, _, _, _) =
                reconstruct_inventory-IsAddressed lib finite p.tenant_id p.endpoint_id scan_id
                  (get "inventory_sync" upload)
                  (at_key same_pair (p.tenant_id, p.endpoint_id) s.inventory_states) now
                  (held_state-IsAddressed p.tenant_id p.endpoint_id s h) made in
              put-StatesAreAddressed p a.reconstruction.state s
                (ingest_new same_number fromisoformat lib finite now at p scan_id upload tasks
                  replay digest s).1
                (rw (e, after_checks) refl) good h
        ]

  -- Whatever an endpoint uploads, and whether the service accepts it or not, an inventory state that it
  -- then holds has a normalized snapshot with the hash that the state carries, if this was so of every
  -- state before.
  pub ingest_scan-IsAddressed :
      (now at : ℕ) (p : DevicePrincipal) (scan_id : String) (upload : Fields)
      (tasks : List AnalysisTask) (key digest : String) (s : Repository)
      → StatesAreAddressed s
      → (tenant_id endpoint_id : String) (state : InventoryState)
      → at_key same_pair
          (tenant_id, endpoint_id)
          (ingest_scan same_number fromisoformat lib finite now at p scan_id upload tasks key digest
            s).1.inventory_states
        ≡ some state
      → IsAddressed lib finite state.snapshot_hash state.snapshot
  unfolding ingest_scan replay_or
  ingest_scan-IsAddressed now at p scan_id upload tasks key digest s h tenant_id endpoint_id state
        found =
      kept tenant_id endpoint_id state found
    where
      kept :
          StatesAreAddressed
            (ingest_scan same_number fromisoformat lib finite now at p scan_id upload tasks key
              digest s).1
      kept =
          let replay : ReplayKey = ingest_key same_number fromisoformat lib finite p scan_id key in
          elim (Option-cases (at_key same_replay_key replay s.idempotency)) [
            | inl fresh ↦
                rw (fresh, replay_or)
                  (ingest_new-StatesAreAddressed now at p scan_id upload tasks replay digest s h)
            | inr (known, remembered) ↦ elim (Bool-cases (str_eq known.0 digest)) [
              | inl same ↦ rw (remembered, replay_or, same) h
              | inr other ↦ rw (remembered, replay_or, other) h
            ]
          ]
