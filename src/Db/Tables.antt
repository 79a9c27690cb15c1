-- ===== src/Db/Tables.antt =====
-- db/db.go, the SQL schema and the statements, as functions on the rows. Hashes are compared byte
-- by byte (they are lower-case hex), and every hash fits its column.
-- `time.Now()` reads the field `now`; times are seconds.
use reflector_go.Prelude.{
  ℕ, ◌+◌, Bool, false, ◌&&◌, ◌||◌, Option, none, some, List, [], ◌∷◌, map, keep_if, any, Str,
  str_eq, ◌==◌, if◌then◌else◌, not,
}
use reflector_go.Prelude.Int.{ℤ}
use reflector_go.Errors.{Result, ok, err, external}

-- `blob_`
pub record BlobRow : Type 0 where
  pub id : ℕ
  pub hash : Str
  pub is_stored : Bool
  pub length : ℕ
  pub last_accessed_at : Option ℕ

-- `stream`
pub record StreamRow : Type 0 where
  pub id : ℕ
  pub hash : Str
  pub sd_blob_id : ℕ
  pub last_accessed_at : Option ℕ

-- `stream_blob`
pub record StreamBlobRow : Type 0 where
  pub stream_id : ℕ
  pub blob_id : ℕ
  pub num : ℤ

-- What the server answers to a statement: it runs it, it reports that a lock could not be had
-- (error 1205), or it fails with another error.
pub data Answer : Type 0 where
  works lock_timeout : Answer
  breaks : ℕ → Answer

-- The database, with the next auto-increment values, and the answers to come (when they are used up,
-- all works). `reports_updated_id` says whether the server reports the id of a row that an
-- `INSERT … ON DUPLICATE KEY UPDATE` found instead of 0, which differs between server versions.
pub record Tables : Type 0 where
  pub blob_ : List BlobRow
  pub stream : List StreamRow
  pub stream_blob : List StreamBlobRow
  pub blocked : List Str
  pub next_blob_id : ℕ
  pub next_stream_id : ℕ
  pub now : ℕ
  pub reports_updated_id : Bool
  pub answers : List Answer

-- The row with a hash; `blob_hash_idx` makes it the only one.
unfoldable pub find_blob : Str → List BlobRow → Option BlobRow
find_blob hash [] = none
find_blob hash (r ∷ rows) = if str_eq r.hash hash then some r else find_blob hash rows

-- `UPDATE blob_ SET … WHERE hash = ?`
unfoldable pub update_blob : Str → (BlobRow → BlobRow) → List BlobRow → List BlobRow
update_blob hash f [] = []
update_blob hash f (r ∷ rows) = (if str_eq r.hash hash then f r else r) ∷ update_blob hash f rows

abbrev blob_insert_at : Option BlobRow → Str → Bool → ℕ → Option ℕ → Tables → Result ℕ × Tables
blob_insert_at none hash stored length accessed t = (
  ok t.next_blob_id,
  record t {
    blob_ =
        record {
          id = t.next_blob_id;
          hash = hash;
          is_stored = stored;
          length = length;
          last_accessed_at = accessed;
        }
        ∷ t.blob_;
    next_blob_id = t.next_blob_id + 1;
  },
)
blob_insert_at (some old) hash stored length accessed t = (
  ok (if t.reports_updated_id then old.id else 0),
  record t {
    blob_ =
        update_blob hash
          (λ r. record r {
            is_stored = r.is_stored || stored;
            last_accessed_at = elim accessed [ none ↦ r.last_accessed_at | some x ↦ some x ];
          })
          t.blob_;
  },
)

-- `INSERT INTO blob_ (hash, is_stored, length[, last_accessed_at]) VALUES (…) ON DUPLICATE KEY UPDATE
-- is_stored = (is_stored or VALUES(is_stored))[, last_accessed_at = VALUES(last_accessed_at)]`
unfoldable pub blob_insert : Str → Bool → ℕ → Option ℕ → Tables → Result ℕ × Tables
unfolding find_blob update_blob
blob_insert hash stored length accessed t =
    blob_insert_at (find_blob hash t.blob_) hash stored length accessed t

-- `UPDATE blob_ SET is_stored = 0 WHERE hash = ?`
unfoldable pub blob_mark_missing : Str → Tables → Result ℕ × Tables
unfolding update_blob
blob_mark_missing hash t =
    (ok 0, record t { blob_ = update_blob hash (λ r. record r { is_stored = false }) t.blob_ })

-- `UPDATE blob_ SET last_accessed_at = ? WHERE id IN (…)`
unfoldable pub blob_touch : ℕ → List ℕ → Tables → Result ℕ × Tables
blob_touch now ids t = (
  ok 0,
  record t {
    blob_ =
        map
          (λ (r : BlobRow).
            if any (λ i. i == r.id) ids then record r { last_accessed_at = some now } else r)
          t.blob_;
  },
)

-- `UPDATE stream SET last_accessed_at = ? WHERE id IN (…)`
unfoldable pub stream_touch : ℕ → List ℕ → Tables → Result ℕ × Tables
stream_touch now ids t = (
  ok 0,
  record t {
    stream =
        map
          (λ (r : StreamRow).
            if any (λ i. i == r.id) ids then record r { last_accessed_at = some now } else r)
          t.stream;
  },
)

-- `INSERT IGNORE INTO stream (hash, sd_blob_id[, last_accessed_at]) VALUES (…)`: the hash is unique.
unfoldable pub stream_insert : Str → ℕ → Option ℕ → Tables → Result ℕ × Tables
stream_insert hash sd_blob_id accessed t =
    if any (λ (s : StreamRow). str_eq s.hash hash) t.stream then (ok 0, t) else (
      ok t.next_stream_id,
      record t {
        stream =
            record {
              id = t.next_stream_id;
              hash = hash;
              sd_blob_id = sd_blob_id;
              last_accessed_at = accessed;
            }
            ∷ t.stream;
        next_stream_id = t.next_stream_id + 1;
      },
    )

-- `INSERT IGNORE INTO stream_blob (stream_id, blob_id, num) VALUES (…)`: the pair is the key.
unfoldable pub stream_blob_insert : ℕ → ℕ → ℤ → Tables → Result ℕ × Tables
stream_blob_insert stream_id blob_id num t =
    if any (λ (r : StreamBlobRow). (r.stream_id == stream_id) && (r.blob_id == blob_id))
      t.stream_blob
    then (ok 0, t)
    else (
      ok 0,
      record t {
        stream_blob =
            record { stream_id = stream_id; blob_id = blob_id; num = num } ∷ t.stream_blob;
      },
    )

-- `DELETE FROM stream WHERE sd_blob_id = (SELECT id FROM blob_ WHERE hash = ?)`; the foreign key of
-- `stream_blob` deletes the links of a deleted stream.
abbrev is_stream_of : Option BlobRow → StreamRow → Bool
is_stream_of none s = false
is_stream_of (some b) s = s.sd_blob_id == b.id

unfoldable pub stream_delete : Str → Tables → Result ℕ × Tables
unfolding find_blob
stream_delete hash t =
    let gone = λ (s : StreamRow). is_stream_of (find_blob hash t.blob_) s in
    let dead = map (λ (s : StreamRow). s.id) (keep_if gone t.stream) in
    (
      ok 0,
      record t {
        stream = keep_if (λ s. not (gone s)) t.stream;
        stream_blob =
            keep_if (λ (r : StreamBlobRow). not (any (λ i. i == r.stream_id) dead)) t.stream_blob;
      },
    )

-- `DELETE FROM blob_ WHERE hash = ?`; the foreign key of `stream_blob` deletes the blob's links, and
-- that of `stream` refuses to delete the sd blob of a stream (error 1451).
abbrev blob_delete_at : Option BlobRow → Str → Tables → Result ℕ × Tables
blob_delete_at none hash t = (ok 0, t)
blob_delete_at (some b) hash t =
    if any (λ (s : StreamRow). s.sd_blob_id == b.id) t.stream then (err (external 1451), t) else (
      ok 0,
      record t {
        blob_ = keep_if (λ (r : BlobRow). not (str_eq r.hash hash)) t.blob_;
        stream_blob = keep_if (λ (r : StreamBlobRow). not (r.blob_id == b.id)) t.stream_blob;
      },
    )

unfoldable pub blob_delete : Str → Tables → Result ℕ × Tables
unfolding find_blob
blob_delete hash t = blob_delete_at (find_blob hash t.blob_) hash t

-- `INSERT IGNORE INTO blocked SET hash = ?`
unfoldable pub blocked_insert : Str → Tables → Result ℕ × Tables
blocked_insert hash t = (
  ok 0,
  if any (λ b. str_eq b hash) t.blocked then t else record t { blocked = hash ∷ t.blocked },
)
