-- ===== src/Streams/Parts.antt =====
-- The streams that `GetStream` returns.
use reflector_go.Streams
use reflector_go.Streams.{Streamed, streams, fails, stream_panics, Blob, Result, ok, err}
use reflector_go.Peer.Client.{Got, answers, panics}
use reflector_go.Prelude.{List, Str, ◌∷◌, Option, [], ◌≡◌, some, refl, arith, All}
use reflector_go.Shared.{BlobTrace}

-- All elements of a list but the last.
abbrev pub init : List Str → List Str
init [] = []
init (last ∷ []) = []
init (h ∷ next ∷ hashes) = h ∷ init (next ∷ hashes)

-- The blobs are those that a server holds under the hashes, in their order.
abbrev pub AreHeld : (Str → Option Blob) → List Str → List Blob → Type 0
AreHeld held [] [] = Unit
AreHeld held [] (b ∷ blobs) = ⊥
AreHeld held (h ∷ hashes) [] = ⊥
AreHeld held (h ∷ hashes) (b ∷ blobs) = (held h ≡ some b) × AreHeld held hashes blobs

module _ (State : Type 0) (get_blob : Str → State → Got × State)
    (blob_infos : Blob → Result (List Str)) (IsValid : State → Type 0) (held : Str → Option Blob)
    (sound : (h : Str) (s : State)
      → IsValid s
      → ((b : Blob) (t : BlobTrace) → (get_blob h s).0 ≡ answers (ok b) t → held h ≡ some b)
        × IsValid (get_blob h s).1) where
  -- The result says only what is held.
  abbrev IsPart : List Str → Streamed → Type 0
  IsPart hashes (streams blobs) = AreHeld held hashes blobs
  IsPart hashes (fails e) = Unit
  IsPart hashes stream_panics = Unit

  add_blob-IsPart :
      (h : Str) (hashes : List Str) (b : Blob) (r : Streamed × State)
      → held h ≡ some b
      → IsPart hashes r.0
      → IsPart (h ∷ hashes) (Streams.add_blob State get_blob blob_infos b r).0
  add_blob-IsPart h hashes b (streams blobs, s) e p = (e, p)
  add_blob-IsPart h hashes b (fails x, s) e p = tt
  add_blob-IsPart h hashes b (stream_panics, s) e p = tt

  after_blob-IsPart :
      (h : Str) (hashes : List Str) (r : Got × State) (rest : State → Streamed × State)
      → ((b : Blob) (t : BlobTrace) → r.0 ≡ answers (ok b) t → held h ≡ some b)
      → IsPart hashes (rest r.1).0
      → IsPart (h ∷ hashes) (Streams.after_blob State get_blob blob_infos r rest).0
  after_blob-IsPart h hashes (answers (ok b) t, s) rest e p =
      add_blob-IsPart h hashes b (rest s) (e b t refl) p
  after_blob-IsPart h hashes (answers (err x) t, s) rest e p = tt
  after_blob-IsPart h hashes (panics, s) rest e p = tt

  stream_loop-IsPart :
      (hashes : List Str) (s : State)
      → IsValid s
      → IsPart (init hashes) (Streams.stream_loop State get_blob blob_infos hashes s).0
  unfolding Streams.stream_loop
  stream_loop-IsPart [] s v = tt
  stream_loop-IsPart (last ∷ []) s v = tt
  stream_loop-IsPart (h ∷ next ∷ hashes) s v =
      after_blob-IsPart h (init (next ∷ hashes)) (get_blob h s) _ (sound h s v).0
        (stream_loop-IsPart (next ∷ hashes) _ (sound h s v).1)

  -- What a stream is: the sd blob that is held under its hash, and the blobs that are held under the
  -- hashes in the sd blob, but for the last.
  abbrev pub IsStream : Str → Streamed → Type 0
  IsStream sd_hash (streams blobs) =
      (sd : Blob) × (infos : List Str) × (blob_infos sd ≡ ok infos)
      × AreHeld held (sd_hash ∷ init infos) blobs
  IsStream sd_hash (fails e) = Unit
  IsStream sd_hash stream_panics = Unit

  add_sd_blob-IsStream :
      (h : Str) (b : Blob) (infos : List Str) (r : Streamed × State)
      → held h ≡ some b
      → blob_infos b ≡ ok infos
      → IsPart (init infos) r.0
      → IsStream h (Streams.add_blob State get_blob blob_infos b r).0
  add_sd_blob-IsStream h b infos (streams blobs, s) e f p = (b, infos, f, (e, p))
  add_sd_blob-IsStream h b infos (fails x, s) e f p = tt
  add_sd_blob-IsStream h b infos (stream_panics, s) e f p = tt

  with_infos-IsStream :
      (h : Str) (b : Blob) (r : Result (List Str)) (s : State)
      → held h ≡ some b
      → blob_infos b ≡ r
      → IsValid s
      → IsStream h
          (Streams.add_blob State get_blob blob_infos b
            (Streams.with_infos State get_blob blob_infos r s)).0
  with_infos-IsStream h b (ok []) s e f v = tt
  with_infos-IsStream h b (ok (i ∷ infos)) s e f v =
      add_sd_blob-IsStream h b (i ∷ infos) _ e f (stream_loop-IsPart (i ∷ infos) s v)
  with_infos-IsStream h b (err x) s e f v = tt

  after_sd_blob-IsStream :
      (h : Str) (r : Got × State)
      → ((b : Blob) (t : BlobTrace) → r.0 ≡ answers (ok b) t → held h ≡ some b)
      → IsValid r.1
      → IsStream h (Streams.after_sd_blob State get_blob blob_infos r).0
  after_sd_blob-IsStream h (answers (ok b) t, s) e v =
      with_infos-IsStream h b (blob_infos b) s (e b t refl) refl v
  after_sd_blob-IsStream h (answers (err x) t, s) e v = tt
  after_sd_blob-IsStream h (panics, s) e v = tt

  -- If each `GetBlob` returns only what the server holds under its hash, and leaves that as it is, then
  -- a stream that `GetStream` returns is the sd blob that is held under the sd hash, followed by the
  -- blobs that are held under the hashes of its blob infos but the last, all of them and in their order.
  pub get_stream-IsStream :
      (sd_hash : Str) (s : State)
      → IsValid s
      → IsStream sd_hash (Streams.get_stream State get_blob blob_infos sd_hash s).0
  unfolding Streams.get_stream
  get_stream-IsStream h s v =
      after_sd_blob-IsStream h (get_blob h s) (sound h s v).0 (sound h s v).1

module _ (State : Type 0) (get_blob : Str → State → Got × State)
    (blob_infos : Blob → Result (List Str)) (IsValid : State → Type 0) (held : Str → Option Blob)
    (serves : (h : Str) (s : State) (b : Blob)
      → IsValid s
      → held h ≡ some b
      → (t : BlobTrace) × ((get_blob h s).0 ≡ answers (ok b) t) × IsValid (get_blob h s).1) where
  after_blob-ok :
      (b : Blob) (t : BlobTrace) (r : Got × State) (rest : State → Streamed × State)
      → r.0 ≡ answers (ok b) t
      → Streams.after_blob State get_blob blob_infos r rest
        ≡ Streams.add_blob State get_blob blob_infos b (rest r.1)
  after_blob-ok b t (answers (ok c) u, s) rest e = ground arith
  after_blob-ok b t (answers (err x) u, s) rest e = cc
  after_blob-ok b t (panics, s) rest e = cc

  -- The loop returns the blobs.
  abbrev IsWhole : List Str → Streamed → Type 0
  IsWhole hashes r = (blobs : List Blob) × (r ≡ streams blobs) × AreHeld held hashes blobs

  add_blob-IsWhole :
      (h : Str) (hashes : List Str) (b : Blob) (r : Streamed × State)
      → held h ≡ some b
      → IsWhole hashes r.0
      → IsWhole (h ∷ hashes) (Streams.add_blob State get_blob blob_infos b r).0
  add_blob-IsWhole h hashes b (streams blobs, s) e (blobs', f, p) =
      (b ∷ blobs', ground arith, (e, p))
  add_blob-IsWhole h hashes b (fails x, s) e (blobs', f, p) = cc
  add_blob-IsWhole h hashes b (stream_panics, s) e (blobs', f, p) = cc

  stream_loop-IsWhole :
      (hashes : List Str) (s : State)
      → IsValid s
      → All (λ h. (b : Blob) × (held h ≡ some b)) (init hashes)
      → IsWhole (init hashes) (Streams.stream_loop State get_blob blob_infos hashes s).0
  unfolding Streams.stream_loop
  stream_loop-IsWhole [] s v all = ([], refl, tt)
  stream_loop-IsWhole (last ∷ []) s v all = ([], refl, tt)
  stream_loop-IsWhole (h ∷ next ∷ hashes) s v ((b, e), all) =
      let (t, got, valid) = serves h s b v e in
      rw
        (after_blob-ok b t (get_blob h s)
          (Streams.stream_loop State get_blob blob_infos (next ∷ hashes)) got)
        (add_blob-IsWhole h (init (next ∷ hashes)) b _ e
          (stream_loop-IsWhole (next ∷ hashes) _ valid all))

  after_sd_blob-ok :
      (b : Blob) (t : BlobTrace) (r : Got × State)
      → r.0 ≡ answers (ok b) t
      → Streams.after_sd_blob State get_blob blob_infos r
        ≡ Streams.add_blob State get_blob blob_infos b
            (Streams.with_infos State get_blob blob_infos (blob_infos b) r.1)
  after_sd_blob-ok b t (answers (ok c) u, s) e = ground arith
  after_sd_blob-ok b t (answers (err x) u, s) e = cc
  after_sd_blob-ok b t (panics, s) e = cc

  -- If the server serves what it holds, and holds the sd blob and the blobs of its infos but the last,
  -- of which there is one at least, then `GetStream` returns them, the sd blob first and the others in
  -- the order of the infos.
  pub get_stream-IsWhole :
      (sd_hash : Str) (sd : Blob) (i : Str) (infos : List Str) (s : State)
      → IsValid s
      → held sd_hash ≡ some sd
      → blob_infos sd ≡ ok (i ∷ infos)
      → All (λ h. (b : Blob) × (held h ≡ some b)) (init (i ∷ infos))
      → IsWhole
          (sd_hash ∷ init (i ∷ infos))
          (Streams.get_stream State get_blob blob_infos sd_hash s).0
  unfolding Streams.get_stream
  get_stream-IsWhole h sd i infos s v e parsed all =
      let (t, got, valid) = serves h s sd v e in
      rw (after_sd_blob-ok sd t (get_blob h s) got, parsed)
        (add_blob-IsWhole h (init (i ∷ infos)) sd _ e (stream_loop-IsWhole (i ∷ infos) _ valid all))

  -- An sd blob without blob infos makes `GetStream` panic.
  pub get_stream-empty :
      (sd_hash : Str) (sd : Blob) (s : State)
      → IsValid s
      → held sd_hash ≡ some sd
      → blob_infos sd ≡ ok []
      → (Streams.get_stream State get_blob blob_infos sd_hash s).0 ≡ stream_panics
  unfolding Streams.get_stream
  get_stream-empty h sd s v e parsed =
      let (t, got, valid) = serves h s sd v e in
      rw (after_sd_blob-ok sd t (get_blob h s) got, parsed) refl
