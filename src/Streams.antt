-- ===== src/Streams.antt =====
-- `GetStream` of server/peer/client.go and of server/http3/client.go, which are the same but for the first
-- test of the peer's client. `blob_infos` stands for `sd.FromBlob`: the hex texts of the hashes in the
-- blob infos of an sd blob, the last of which is that of the null blob.
pub mod Parts
use reflector_go.Peer.Client
use reflector_go.Peer.Client.{Got, answers, panics, lift}
use reflector_go.Prelude.{Str, List, ◌∷◌, Bool, if◌then◌else◌, []}
use reflector_go.Store.{Blob}
use reflector_go.Errors.{Error, Result, ok, err, error_text}

-- How the download of a stream ends.
pub data Streamed : Type 0 where
  streams : List Blob → Streamed
  fails : Error → Streamed
  stream_panics : Streamed

module _ (State : Type 0) (get_blob : Str → State → Got × State)
    (blob_infos : Blob → Result (List Str)) where
  abbrev pub add_blob : Blob → Streamed × State → Streamed × State
  add_blob b (streams blobs, s) = (streams (b ∷ blobs), s)
  add_blob b (fails e, s) = (fails e, s)
  add_blob b (stream_panics, s) = (stream_panics, s)

  abbrev pub after_blob : Got × State → (State → Streamed × State) → Streamed × State
  after_blob (answers (ok b) trace, s) rest = add_blob b (rest s)
  after_blob (answers (err e) trace, s) rest = (fails e, s)
  after_blob (panics, s) rest = (stream_panics, s)

  -- The loop over all blob infos but the last.
  unfoldable pub stream_loop : List Str → State → Streamed × State
  stream_loop [] s = (streams [], s)
  stream_loop (last ∷ []) s = (streams [], s)
  stream_loop (h ∷ next ∷ infos) s = after_blob (get_blob h s) (stream_loop (next ∷ infos))

  -- `s := make(stream.Stream, len(sd.BlobInfos)+1-1)` and `s[0] = b`, which panics if there are no infos.
  abbrev pub with_infos : Result (List Str) → State → Streamed × State
  with_infos (ok []) s = (stream_panics, s)
  with_infos (ok (h ∷ infos)) s = stream_loop (h ∷ infos) s
  with_infos (err e) s = (fails e, s)

  abbrev pub after_sd_blob : Got × State → Streamed × State
  after_sd_blob (answers (ok b) trace, s) = add_blob b (with_infos (blob_infos b) s)
  after_sd_blob (answers (err e) trace, s) = (fails e, s)
  after_sd_blob (panics, s) = (stream_panics, s)

  -- `GetStream` of server/http3/client.go
  unfoldable pub get_stream : Str → State → Streamed × State
  unfolding stream_loop
  get_stream sd_hash s = after_sd_blob (get_blob sd_hash s)

  -- `GetStream` of server/peer/client.go
  unfoldable pub get_peer_stream : (State → Bool) → Str → State → Streamed × State
  unfolding get_stream
  get_peer_stream connected sd_hash s =
      if connected s then get_stream sd_hash s else (fails (error_text "not connected"), s)
