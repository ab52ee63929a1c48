-- ===== src/Storage/Uploads/Invariant/Recovering.antt =====
-- The recovery of rejected and dead uploads, and the well-formedness of the table.
use os_scanner.Prelude.{
  ℕ, ◌<◌, String, ◌≡◌, refl, subst, true, false, not, Option, some, arith, find, find-All, any,
  update, inl, inr, Option-cases, ok, guard, storage_error, value_error, or_raise, or_raise-eq-ok,
  guard-eq-ok, >>=-eq-ok, is_none,
}
use os_scanner.Prelude.Text.{strip, is_empty}
use os_scanner.Json.{object, as_object, assign}
use os_scanner.Storage.Runtime.{Runtime, parse_json, hash_text, clean_error}
use os_scanner.Storage.Identifier.{clean_text}
use os_scanner.Storage.Audit.{record_audit_event}
use os_scanner.Storage.Uploads.{
  Upload, Storage, EnqueueResult, is_dead, find_upload, is_leased_by, insert_row,
}
use os_scanner.Storage.Uploads.Table.{
  IsRow, IsFound, find_upload-IsFound, find-IsRow, Anything, All-Anything,
}
use os_scanner.Storage.Uploads.Enqueue.{same_key}
use os_scanner.Storage.Uploads.Resync.{
  Recovery, prepare, recovery_upload, insert_recovery, supersede, schedule_full_resync,
}
use os_scanner.Storage.Uploads.Requeue.{
  RequeueResult, in_limits, limit_of, is_requeueable, requeue_row, requeue_event, operator_recovery,
  requeue_checked, requeue_dead_upload,
}
use os_scanner.Storage.Uploads.Invariant.{IsValid, update_rows, Earlier-mono, insert_row-IsValid}

module _ (lib : Runtime) (now : ℕ) (at uuid : String) where
  recovery_upload-IsRow :
      (id hi : ℕ) (row : Upload) (recovery : Recovery)
      → IsRow row
      → row.upload_id ≡ id
      → id < hi
      → IsRow (recovery_upload lib now at uuid id row recovery hi)
  unfolding recovery_upload
  recovery_upload-IsRow id hi row recovery k same below = record {
    limited = omega arith;
    positive = k.positive;
    capped = k.capped;
    leased = (refl, refl);
    after = Earlier-mono row.upload_id hi row.predecessor (omega arith) k.after;
    recovers = below;
    replaced = inl refl;
  }

  insert_recovery-IsValid :
      (id : ℕ) (row : Upload) (recovery : Recovery) (s : Storage) {r : EnqueueResult} {s' : Storage}
      → insert_recovery lib now at uuid id row recovery s ≡ ok (r, s')
      → IsFound s.next_upload_id s.uploads row
      → row.upload_id ≡ id
      → IsValid s
      → IsValid s'
  unfolding insert_recovery
  insert_recovery-IsValid id row recovery s {r} {s'} e k same t =
      elim (Option-cases (find (same_key recovery.idempotency_key) s.uploads)) [
        | inr (existing, hit) ↦ subst IsValid {x = s} {y = s'} (ground (arith, hit)) t
        | inl miss ↦
            let new = recovery_upload lib now at uuid id row recovery s.next_upload_id in
            subst IsValid {x = insert_row s new} {y = s'} (ground (arith, miss)) (
              insert_row-IsValid s new t refl (
                recovery_upload-IsRow id s.next_upload_id row recovery k.row same
                  (omega (arith, k.below))))
      ]

  -- A successful rebase, with what its steps established.
  pub record Rebased (id : ℕ) (error : String) (s : Storage) (r : EnqueueResult) (s' : Storage)
      : Type 0 where
    pub token : String
    pub row : Upload
    pub recovery : Recovery
    pub between : Storage
    pub held : find (is_leased_by id token) s.uploads ≡ some row
    pub prepared : prepare lib now at uuid id row s.snapshots ≡ ok recovery
    pub inserted : insert_recovery lib now at uuid id row recovery s ≡ ok (r, between)
    pub stored : s' ≡ record between {
      uploads =
          update
            (is_leased_by id token)
            (supersede now (clean_error lib error 1024) at r.upload_id)
            between.uploads;
    }

  pub schedule_full_resync-Rebased :
      (id : ℕ) (lease_token error : String) (s : Storage) (r : EnqueueResult) (s' : Storage)
      → schedule_full_resync lib now at uuid id lease_token error s ≡ ok (r, s')
      → Rebased id error s r s'
  unfolding schedule_full_resync
  schedule_full_resync-Rebased id lease_token error s r s' e =
      let (token, _, e1) = >>=-eq-ok (clean_text lease_token 256) _ e in
      let (row, held, e2) =
        >>=-eq-ok (or_raise (find (is_leased_by id token) s.uploads) storage_error) _ e1 in
      let (recovery, prepared, e3) = >>=-eq-ok (prepare lib now at uuid id row s.snapshots) _ e2 in
      let (inserted, ran, e4) =
        >>=-eq-ok (insert_recovery lib now at uuid id row recovery s) _ e3 in
      let (_, _, e5) =
        >>=-eq-ok (guard (any (is_leased_by id token) (inserted.1).uploads) storage_error) _ e4 in
      record {
        token = token;
        row = row;
        recovery = recovery;
        between = inserted.1;
        held = or_raise-eq-ok (find (is_leased_by id token) s.uploads) storage_error held;
        prepared = prepared;
        inserted = ground (arith, ran);
        stored = ground (arith);
      }

  pub schedule_full_resync-IsValid :
      (id : ℕ) (lease_token error : String) (s : Storage) {r : EnqueueResult} {s' : Storage}
      → schedule_full_resync lib now at uuid id lease_token error s ≡ ok (r, s')
      → IsValid s
      → IsValid s'
  schedule_full_resync-IsValid id lease_token error s {r} {s'} e t =
      let d = schedule_full_resync-Rebased id lease_token error s r s' e in
      let here =
        (find-All Anything (is_leased_by id d.token) s.uploads d.row (All-Anything s.uploads)
          d.held).1 in
      let known =
        find_upload-IsFound (is_leased_by id d.token) s.next_upload_id s.uploads d.row t d.held in
      let same : (d.row).upload_id ≡ id = ground arith in
      let table = insert_recovery-IsValid id d.row d.recovery s d.inserted known same t in
      rw d.stored (
        update_rows (is_leased_by id d.token)
          (supersede now (clean_error lib error 1024) at r.upload_id)
          (λ x hit k. unfold supersede in ground arith) (λ x. unfold supersede in refl)
          (d.between).next_upload_id (d.between).uploads table)

module _ (lib : Runtime) (now : ℕ) (recorded_at event_id : String) where
  requeue_checked-IsValid :
      (id : ℕ) (operator reason : String) (limit : Option ℕ) (s : Storage) {r : RequeueResult}
      {s' : Storage}
      → requeue_checked lib now recorded_at event_id id operator reason limit s ≡ ok (r, s')
      → in_limits limit ≡ true
      → IsValid s
      → IsValid s'
  unfolding requeue_checked
  requeue_checked-IsValid id operator reason limit s {r} {s'} e fits t =
      let (row, found, e1) = >>=-eq-ok (or_raise (find_upload id s.uploads) storage_error) _ e in
      let (_, _, e2) = >>=-eq-ok (guard (is_dead row.status) storage_error) _ e1 in
      let (_, _, e3) = >>=-eq-ok (guard (is_none row.superseded_by) storage_error) _ e2 in
      let (value, _, e4) = >>=-eq-ok (parse_json lib row.metadata_json) _ e3 in
      let (fields, _, e5) = >>=-eq-ok (or_raise (as_object value) storage_error) _ e4 in
      let (_, _, e6) = >>=-eq-ok (guard (any (is_requeueable id) s.uploads) storage_error) _ e5 in
      let metadata =
        assign "operator_recovery" (operator_recovery operator event_id reason recorded_at)
          fields in
      let (logged, _, e7) =
        >>=-eq-ok
          (record_audit_event (λ d. hash_text lib (lib.canonical_json d)) s.audit
            (requeue_event lib now recorded_at event_id row metadata operator reason
              (limit_of limit row))
            false)
          _ e6 in
      let known =
        (find-IsRow 0 s.next_upload_id id s.uploads row t
          (or_raise-eq-ok (find_upload id s.uploads) storage_error found)).0 in
      let f =
        requeue_row (limit_of limit row) now (lib.canonical_json (object metadata)) recorded_at in
      subst IsValid
        {x = record s { uploads = update (is_requeueable id) f s.uploads; audit = logged.1 }}
        {y = s'} (ground arith)
        (update_rows (is_requeueable id) f
          (λ x hit k. unfold requeue_row in ground (arith, known.positive, known.capped))
          (λ x. unfold requeue_row in refl) s.next_upload_id s.uploads t)

  pub requeue_dead_upload-IsValid :
      (id : ℕ) (actor reason : String) (limit : Option ℕ) (s : Storage) {r : RequeueResult}
      {s' : Storage}
      → requeue_dead_upload lib now recorded_at event_id id actor reason limit s ≡ ok (r, s')
      → IsValid s
      → IsValid s'
  unfolding requeue_dead_upload
  requeue_dead_upload-IsValid id actor reason limit s e t =
      let (operator, _, e1) = >>=-eq-ok (clean_text actor 256) _ e in
      let (requested, _, e2) = >>=-eq-ok (clean_text reason 512) _ e1 in
      let safe = strip (clean_error lib requested 512) in
      let (_, _, e3) = >>=-eq-ok (guard (not (is_empty safe)) value_error) _ e2 in
      let (_, fits, e4) = >>=-eq-ok (guard (in_limits limit) value_error) _ e3 in
      requeue_checked-IsValid id operator safe limit s e4
        (guard-eq-ok (in_limits limit) value_error fits) t
