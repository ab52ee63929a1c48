-- ===== src/Storage/Uploads/Purge.antt =====
-- `purge_succeeded_uploads` and `queue_stats`. Foreign keys are enforced: a deleted row's id is set to
-- null in the rows that refer to it (ON DELETE SET NULL).
use os_scanner.Prelude.{
  ℕ, ◌+◌, ◌-◌, String, Bool, false, not, ◌&&◌, ◌||◌, Option, none, some, List, map, take, length,
  leb, ◌==◌, is_id, if◌then◌else◌, any, select, count, Result, ok, guard, value_error, ◌>>◌,
}
use os_scanner.Prelude.Text.{text_lt}
use os_scanner.Storage.Uploads.{
  Upload, Storage, Status, is_pending, is_in_flight, is_succeeded, is_dead, find_upload,
}
use os_scanner.Storage.Uploads.Claim.{has_succeeded}

-- delivered_at < ?, false on a null
abbrev pub delivered_before : String → Option String → Bool
delivered_before bound none = false
delivered_before bound (some at) = text_lt at bound

-- The replacement has been delivered long ago.
unfoldable pub is_replaced_before : List Upload → String → Option ℕ → Bool
unfolding find_upload
is_replaced_before rows bound none = false
is_replaced_before rows bound (some id) = elim (find_upload id rows) [
  | none ↦ false
  | some r ↦ is_succeeded r.status && delivered_before bound r.delivered_at
]

-- The first DELETE's rows.
unfoldable pub is_resolved : List Upload → String → Upload → Bool
unfolding is_replaced_before
is_resolved rows bound r = is_dead r.status && is_replaced_before rows bound r.superseded_by

-- The second DELETE's rows.
unfoldable pub is_delivered : List Upload → String → Upload → Bool
is_delivered rows bound r =
    is_succeeded r.status
    && delivered_before bound r.delivered_at
    && not (any (λ s. is_id r.upload_id s.superseded_by) rows)

abbrev pub ids_of : List Upload → List ℕ
ids_of = map (λ r. r.upload_id)

unfoldable pub holds : List ℕ → ℕ → Bool
holds ids id = any (λ i. i == id) ids

abbrev pub unless_deleted : List ℕ → Option ℕ → Option ℕ
unless_deleted ids none = none
unless_deleted ids (some id) = if holds ids id then none else some id

unfoldable pub forget : List ℕ → Upload → Upload
forget ids r = record r {
  predecessor = unless_deleted ids r.predecessor;
  superseded_by = unless_deleted ids r.superseded_by;
  resync_for = unless_deleted ids r.resync_for;
}

-- DELETE FROM upload_queue WHERE upload_id IN (ids)
unfoldable pub delete_uploads : List ℕ → List Upload → List Upload
unfolding forget
delete_uploads ids rows = map (forget ids) (select (λ r. not (holds ids r.upload_id)) rows)

-- One DELETE with its subquery: the number of rows that it removed, and the table after it.
unfoldable pub delete_where : (Upload → Bool) → ℕ → List Upload → ℕ × List Upload
unfolding delete_uploads
delete_where test limit rows =
    let ids = ids_of (take limit (select test rows)) in (length ids, delete_uploads ids rows)

unfoldable pub purge_succeeded_uploads : String → ℕ → Storage → Result (ℕ × Storage)
unfolding is_resolved is_delivered delete_where
purge_succeeded_uploads older_than limit s = do
  guard (leb 1 limit && leb limit 100_000) value_error
  let first = delete_where (is_resolved s.uploads older_than) limit s.uploads
  let remaining = limit - first.0
  let second = delete_where (is_delivered first.1 older_than) remaining first.1
  ok (
      if remaining == 0
      then (first.0, record s { uploads = first.1 })
      else (first.0 + second.0, record s { uploads = second.1 }))

-- QueueStats
pub record QueueStats : Type 0 where
  pub pending : ℕ
  pub in_flight : ℕ
  pub succeeded : ℕ
  pub dead : ℕ

-- QueueStats.active
abbrev pub active : QueueStats → ℕ
active q = q.pending + q.in_flight

-- The WHERE clause: a dead letter whose replacement was delivered is not counted.
unfoldable pub is_counted : List Upload → Upload → Bool
is_counted rows r = not (is_dead r.status) || not (has_succeeded rows r.superseded_by)

unfoldable pub queue_stats : Storage → QueueStats
unfolding is_counted
queue_stats s =
    let of_status =
      λ (test : Status → Bool). count (λ r. test r.status && is_counted s.uploads r) s.uploads in
    record {
      pending = of_status is_pending;
      in_flight = of_status is_in_flight;
      succeeded = of_status is_succeeded;
      dead = of_status is_dead;
    }
