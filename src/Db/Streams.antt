-- ===== src/Db/Streams.antt =====
-- db/db.go: `AddSDBlob` and `MissingBlobsForKnownStream`.
use reflector_go.Db.Tables.{Tables, BlobRow, StreamRow, StreamBlobRow, stream_blob_insert}
use reflector_go.Db.Exec.{Act, pure, ◌>>=◌, ◌>>◌, once, exec}
use reflector_go.Db.Insert.{Sql, need_connection, insert_blob, insert_stream}
use reflector_go.Prelude.Int.{ℤ}
use reflector_go.Prelude.{
  List, Str, ℕ, flat_map, Bool, ◌∷◌, true, if◌then◌else◌, map, [], str_eq, any, false, keep_if,
  ◌==◌, ◌&&◌, not,
}
use reflector_go.Errors.{ok}

-- An entry of `SdBlob.Blobs`, without its initialisation vector
pub record ContentBlob : Type 0 where
  pub length : ℤ
  pub blob_num : ℤ
  pub blob_hash : Str

-- `SdBlob`, without its key and its names
pub record SdBlob : Type 0 where
  pub blobs : List ContentBlob
  pub stream_hash : Str

-- One round: the null terminator blob has no hash and is skipped.
unfoldable pub add_content_blob : Sql → ℕ → ContentBlob → Act (Unit {0})
unfolding insert_blob exec stream_blob_insert
add_content_blob s stream_id c = if str_eq c.blob_hash [] then pure tt else do
  blob_id ← insert_blob s c.blob_hash c.length false
  exec (stream_blob_insert stream_id blob_id c.blob_num)
  pure tt

unfoldable pub add_content_blobs : Sql → ℕ → List ContentBlob → Act (Unit {0})
unfolding add_content_blob
add_content_blobs s stream_id [] = pure tt
add_content_blobs s stream_id (c ∷ cs) =
    add_content_blob s stream_id c >> add_content_blobs s stream_id cs

-- `AddSDBlob`
unfoldable pub add_sd_blob : Sql → Str → ℤ → SdBlob → Act (Unit {0})
unfolding add_content_blobs insert_stream insert_blob
add_sd_blob s sd_hash sd_blob_length sd_blob = do
  need_connection s
  sd_blob_id ← insert_blob s sd_hash sd_blob_length true
  stream_id ← insert_stream s sd_blob.stream_hash sd_blob_id
  add_content_blobs s stream_id sd_blob.blobs

-- The joins of the query, from the blob outwards: the hash of `b` once for each link to a stream
-- whose sd blob has the hash, if `b` is not stored.
abbrev has_sd_hash : Str → List BlobRow → StreamRow → Bool
has_sd_hash sd_hash blobs s =
    any (λ (b : BlobRow). (b.id == s.sd_blob_id) && str_eq b.hash sd_hash) blobs

abbrev is_link_to : Str → Tables → StreamBlobRow → Bool
is_link_to sd_hash t l =
    any (λ (s : StreamRow). (s.id == l.stream_id) && has_sd_hash sd_hash t.blob_ s) t.stream

unfoldable pub select_missing : Str → Tables → List Str
select_missing sd_hash t =
    flat_map
      (λ (b : BlobRow).
        map (λ l. b.hash)
          (keep_if (λ (l : StreamBlobRow). (l.blob_id == b.id) && is_link_to sd_hash t l)
            t.stream_blob))
      (keep_if (λ (b : BlobRow). not b.is_stored) t.blob_)

-- `MissingBlobsForKnownStream`
unfoldable pub missing_blobs_for_known_stream : Sql → Str → Act (List Str)
unfolding select_missing once
missing_blobs_for_known_stream s sd_hash = do
  need_connection s
  once (λ t. (ok (select_missing sd_hash t), t))
