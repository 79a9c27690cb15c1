-- ===== src/Db/Lookup.antt =====
-- db/db.go: `HasBlob`, `HasBlobs`, `hasBlobs`.
pub mod Batches
use reflector_go.Db.Tables.{Tables, BlobRow, StreamRow, StreamBlobRow}
use reflector_go.Db.Exec.{Act, pure, ◌>>=◌, ◌>>◌, once}
use reflector_go.Db.Insert.{
  Sql, TrackAccess, track_access_none, track_access_streams, track_access_blobs, need_connection,
  touch_blobs, touch_streams,
}
use reflector_go.Prelude.Dict
use reflector_go.Prelude.Dict.{Dict, lookup}
use reflector_go.Prelude.{
  Bool, List, Option, Str, ℕ, ◌∷◌, none, suc, [], length, any, ◌&&◌, true, flat_map, take,
  if◌then◌else◌, keep_if, false, map, some, str_eq, drop, ltb, ◌++◌, ◌==◌, zero, ◌+◌, ◌||◌, ◌*◌,
}
use reflector_go.Errors.{Result, ok, err}
use reflector_go.Order.{mem_str}

-- A row of the query: `b.hash, b.id, s.id, last_accessed_at`.
pub record FoundRow : Type 0 where
  pub hash : Str
  pub blob_id : ℕ
  pub stream_id : Option ℕ
  pub last_accessed_at : Option ℕ

-- `b.is_stored = 1 and b.hash IN (…)`
abbrev pub stored_in : List Str → BlobRow → Bool
stored_in batch b = b.is_stored && mem_str b.hash batch

-- `INNER JOIN stream s on (sb.stream_id = s.id or s.sd_blob_id = b.id)`, for one row of the left join
abbrev pub joined_streams : BlobRow → Option StreamBlobRow → List StreamRow → List FoundRow
joined_streams b link [] = []
joined_streams b link (s ∷ streams) =
    let rest = joined_streams b link streams in
    let by_link : Bool = elim link [ none ↦ false | some sb ↦ sb.stream_id == s.id ] in
    if by_link || s.sd_blob_id == b.id
    then record {
      hash = b.hash;
      blob_id = b.id;
      stream_id = some s.id;
      last_accessed_at = s.last_accessed_at;
    }
      ∷ rest
    else rest

-- `LEFT JOIN stream_blob sb ON b.id = sb.blob_id`
abbrev pub left_join : List StreamBlobRow → List (Option StreamBlobRow)
left_join [] = none ∷ []
left_join (l ∷ links) = map some (l ∷ links)

abbrev pub row_of : TrackAccess → Tables → BlobRow → List FoundRow
row_of track_access_none t b =
    record { hash = b.hash; blob_id = b.id; stream_id = none; last_accessed_at = none } ∷ []
row_of track_access_blobs t b =
    record {
      hash = b.hash;
      blob_id = b.id;
      stream_id = none;
      last_accessed_at = b.last_accessed_at;
    }
    ∷ []
row_of track_access_streams t b =
    flat_map (λ (link : Option StreamBlobRow). joined_streams b link t.stream)
      (left_join (keep_if (λ (l : StreamBlobRow). l.blob_id == b.id) t.stream_blob))

-- The query of `hasBlobs` on one batch.
unfoldable pub select_found : Sql → List Str → Tables → List FoundRow
select_found s batch t = flat_map (row_of s.track_access t) (keep_if (stored_in batch) t.blob_)

-- `exists` and `needsTouch`
pub record Found : Type 0 where
  pub exists : Dict Bool
  pub needs_touch : List ℕ

-- `!lastAccessedAt.Valid || lastAccessedAt.Time.Before(touchDeadline)`, with the deadline six hours
-- before `now`
abbrev pub is_stale : ℕ → Option ℕ → Bool
is_stale now none = true
is_stale now (some accessed) = ltb (accessed + 6 * 3600) now

-- `!streamID.IsZero()`: neither null nor 0
abbrev pub touched_stream : Option ℕ → List ℕ
touched_stream none = []
touched_stream (some zero) = []
touched_stream (some (suc i)) = suc i ∷ []

abbrev pub touch_ids : TrackAccess → FoundRow → List ℕ
touch_ids track_access_none r = []
touch_ids track_access_blobs r = r.blob_id ∷ []
touch_ids track_access_streams r = touched_stream r.stream_id

-- The loop over the rows.
unfoldable pub scan_rows : Sql → ℕ → List FoundRow → Found → Found
scan_rows s now [] found = found
scan_rows s now (r ∷ rows) found = scan_rows s now rows (record {
  exists = Dict.insert r.hash true found.exists;
  needs_touch =
      if is_stale now r.last_accessed_at
      then found.needs_touch ++ touch_ids s.track_access r
      else found.needs_touch;
})

abbrev pub max_batch_size : ℕ
max_batch_size = 10000

-- `for len(hashes) > doneIndex`, one batch a round.
unfoldable pub batch_loop : ℕ → Sql → ℕ → List Str → ℕ → Found → Act Found
unfolding select_found scan_rows once
batch_loop zero s now hashes done_index found = pure found
batch_loop (suc fuel) s now hashes done_index found =
    let batch = take max_batch_size (drop done_index hashes) in
    let round = (do
      rows ← once (λ t. (ok (select_found s batch t), t))
      batch_loop fuel s now hashes (done_index + length batch) (scan_rows s now rows found)) in
    if ltb done_index (length hashes) then round else pure found

-- `hasBlobs`; a round takes at least one hash, so `length hashes` rounds are enough.
unfoldable pub find_blobs : Sql → List Str → Act Found
unfolding batch_loop
find_blobs s hashes = do
  need_connection s
  λ t. batch_loop (length hashes) s t.now hashes 0 (record { exists = []; needs_touch = [] }) t

-- The touch of `HasBlobs`, whose error is dropped.
abbrev pub touch_found : Sql → List ℕ → Tables → Tables
touch_found s ids t = elim s.track_access [
  | track_access_none ↦ t
  | track_access_blobs ↦ (touch_blobs ids t).1
  | track_access_streams ↦ (touch_streams ids t).1
]

abbrev pub after_find : Sql → Bool → Result Found × Tables → Result (Dict Bool) × Tables
after_find s touch (ok found, t) =
    (ok found.exists, if touch then touch_found s found.needs_touch t else t)
after_find s touch (err e, t) = (err e, t)

-- `HasBlobs`
unfoldable pub has_blobs : Sql → List Str → Bool → Act (Dict Bool)
unfolding find_blobs touch_blobs touch_streams
has_blobs s hashes touch t = after_find s touch (find_blobs s hashes t)

-- `exists[hash]`
abbrev pub truth_at : Str → Dict Bool → Bool
truth_at hash exists = elim (lookup hash exists) [ none ↦ false | some b ↦ b ]

-- `HasBlob`
unfoldable pub has_blob : Sql → Str → Bool → Act Bool
unfolding has_blobs
has_blob s hash touch = do exists ← has_blobs s (hash ∷ []) touch; pure (truth_at hash exists)
