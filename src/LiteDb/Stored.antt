-- ===== src/LiteDb/Stored.antt =====
-- Which blobs are stored after a change.
use reflector_go.LiteDb.{
  LiteSql, add_blob, insert_blob, insert_positive, blob_id_by_select, id_of, exec, delete,
}
use reflector_go.Db.Exec
use reflector_go.Db.Exec.{Act, pure, fail, guard, ◌>>◌}
use reflector_go.Db.Tables.{Tables, BlobRow, blob_mark_missing, find_blob, update_blob}
use reflector_go.Db.Insert.Leaves.{
  Leaves, Leaves-if, Leaves-pure, Leaves-bind, Leaves-once, Leaves-fail, exec_loop-cases,
}
use reflector_go.Db.Insert.Stored.{
  IsAdded, IsLeft, AddsOrFails, AddsOrFails-continue, AddsOrFails-exec, AddsOrFails-guard,
}
use reflector_go.Db.Lookup.Batches.{is_stored_in}
use reflector_go.Errors.{ok}
use reflector_go.Prelude.Int.{ℤ, pos, negsuc}
use reflector_go.Prelude.{
  Option, Str, List, ◌⊎◌, ◌≡◌, inr, some, ℕ, false, not, none, ◌≢◌, suc, inl, zero, str_eq, refl,
  ◌&&◌, arith, ◌∷◌, str_eq_iff, [],
}

Leaves-id_of : (o : Option BlobRow) → Leaves (id_of o)
Leaves-id_of none = Leaves-fail _
Leaves-id_of (some r) = Leaves-pure r.id

Leaves-blob_id_by_select : (hash : Str) → Leaves (blob_id_by_select hash)
unfolding blob_id_by_select
Leaves-blob_id_by_select hash =
    Leaves-bind _ _
      (Leaves-once _ (record { at = λ t h. (Leaves-id_of (find_blob hash t.blob_)).at t h }))
      (λ id. Leaves-if _ _ _ (Leaves-fail _) (Leaves-pure id))

AddsOrFails-insert_positive :
    (hash : Str) (length : ℕ) (t : Tables) → AddsOrFails hash t (insert_positive hash length t)
unfolding insert_positive exec
AddsOrFails-insert_positive hash length t =
    AddsOrFails-continue hash t _ _ (AddsOrFails-exec hash length _ t)
      (λ id. Leaves-if _ _ _ (Leaves-blob_id_by_select hash) (Leaves-pure id))

AddsOrFails-insert_blob :
    (hash : Str) (length : ℤ) (t : Tables) → AddsOrFails hash t (insert_blob hash length t)
unfolding insert_blob
AddsOrFails-insert_blob hash (pos zero) t = inr (λ h. refl, λ a f. cc)
AddsOrFails-insert_blob hash (pos (suc n)) t = AddsOrFails-insert_positive hash (suc n) t
AddsOrFails-insert_blob hash (negsuc n) t = inr (λ h. refl, λ a f. cc)

-- `AddBlob` of the local database, whatever the server answers: the blob is marked as stored and of the
-- others those that were before, or nothing changed and the call failed.
pub lite_add_blob-IsAdded :
    (s : LiteSql) (hash : Str) (length : ℤ) (t : Tables)
    → let (r, t') = add_blob s hash length t in IsAdded hash t t' ⊎ (IsLeft t t' × (r ≢ ok tt))
unfolding add_blob
lite_add_blob-IsAdded s hash length t =
    elim (AddsOrFails-guard s.connected _ hash (insert_blob hash length >> pure tt) t (
      AddsOrFails-continue hash t _ _ (AddsOrFails-insert_blob hash length t)
        (λ id. Leaves-pure tt))) [
          | inl added ↦ inl added
          | inr (same, never) ↦ inr (same, never tt)
        ]

-- The blob with this hash is not stored after the step, and of the others those that were before.
abbrev pub IsRemoved : Str → Tables → Tables → Type 0
IsRemoved hash t t' =
    (h : Str) → is_stored_in t'.blob_ h ≡ (not (str_eq hash h) && is_stored_in t.blob_ h)

marked_missing :
    (hash h : Str) (rows : List BlobRow)
    → is_stored_in (update_blob hash (λ (r : BlobRow). record r { is_stored = false }) rows) h
      ≡ (not (str_eq hash h) && is_stored_in rows h)
unfolding update_blob
marked_missing hash h [] = ground arith
marked_missing hash h (r ∷ rows) = ground (
  arith,
  marked_missing hash h rows,
  str_eq_iff r.hash hash,
  str_eq_iff r.hash h,
  str_eq_iff hash h,
)

-- `Delete` of the local database, whatever the server answers: the blob is no longer marked as stored
-- and of the others those that were before, or nothing changed and the call failed. The rows stay.
pub lite_delete-IsRemoved :
    (hash : Str) (t : Tables)
    → let (r, t') = delete hash t in IsRemoved hash t t' ⊎ (IsLeft t t' × (r ≢ ok tt))
unfolding delete exec Exec.exec blob_mark_missing
lite_delete-IsRemoved hash t =
    let (rest, r) = exec_loop-cases 3 (blob_mark_missing hash) t in
    elim r [
      | inl ran ↦ rw ran (inl (λ h. marked_missing hash h t.blob_))
      | inr (e, failed) ↦ rw failed (inr (λ h. refl, λ f. cc))
    ]
