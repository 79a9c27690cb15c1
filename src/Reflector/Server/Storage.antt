-- ===== src/Reflector/Server/Storage.antt =====
-- What a connection does to the stores: it puts blobs under their own hash, and nothing else.
use reflector_go.Reflector.Server.{
  panic, Message, Reply, Stores, Outcome, returns, fails, panics, Session, Serve, pure, fail,
  continue, ◌>>=◌, call, require, receive, write, prefix8, Error, Result, Blob, handle_conn,
  store_blob, decide, ℤ, decoded, read_raw_blob, BlobRequest, read, read_blob, read_blob_request,
  asks, do_handshake, receive_blob, serve_loop, needed_for, or_reject, answer_version, negsuc,
  reject_read, pos,
}
use reflector_go.Reflector.Hash.{blob_hash}
use reflector_go.Prelude.{
  ◌&&◌, not, [], List, ℕ, Option, Str, arith, Bool, ◌≡◌, String, some, true, false, if◌then◌else◌,
  refl, sym, none, suc, length, zero, str_eq_iff,
}

-- A property of the stores' state that reads keep, and that a put keeps if the blob has the hash
-- under which it is put.
pub record IsStable (stores : Stores) (digest : List ℕ → List ℕ) (P : stores.State → Type 0)
    : Type 0 where
  pub has : (h : Str) (s : stores.State) → P s → P (stores.has h s).1
  pub wants :
      (ask : Str → stores.State → Result Bool × stores.State)
      → stores.wants ≡ some ask
      → (h : Str) (s : stores.State) → P s
      → P (ask h s).1
  pub missing :
      (ask : Str → stores.State → Result (List Str) × stores.State)
      → stores.missing_blobs_for_known_stream ≡ some ask
      → (h : Str) (s : stores.State) → P s
      → P (ask h s).1
  pub put :
      (h : Str) (b : Blob) (s : stores.State)
      → blob_hash digest b ≡ h
      → P s
      → P (stores.put h b s).1
  pub put_sd :
      (h : Str) (b : Blob) (s : stores.State)
      → blob_hash digest b ≡ h
      → P s
      → P (stores.put_sd h b s).1

module _ (stores : Stores) (decode : List ℕ → Option Message) (digest : List ℕ → List ℕ)
    (max_blob_size : ℕ) {P : stores.State → Type 0} (stable : IsStable stores digest P) where
  abbrev World : Type 0
  World = Session stores decode digest max_blob_size

  abbrev Act {ℓ} : Type ℓ → Type ℓ
  Act A = Serve stores decode digest max_blob_size A

  -- The call keeps `P`, however it ends.
  record Keeps {ℓ} {A : Type ℓ} (m : Act A) : Type ℓ where
    at : (w : World) → P w.store → P (m w).1.store

  Keeps-continue {ℓ κ} :
      {A : Type ℓ} {B : Type κ} (r : Outcome A × World) (f : A → Act B)
      → P r.1.store
      → ((a : A) → Keeps (f a))
      → P (continue stores decode digest max_blob_size r f).1.store
  Keeps-continue (returns a, w) f p k = (k a).at w p
  Keeps-continue (fails e, w) f p k = p
  Keeps-continue (panics, w) f p k = p

  Keeps-bind {ℓ κ} :
      {A : Type ℓ} {B : Type κ} (m : Act A) (f : A → Act B)
      → Keeps m
      → ((a : A) → Keeps (f a))
      → Keeps (◌>>=◌ stores decode digest max_blob_size m f)
  unfolding ◌>>=◌
  Keeps-bind m f k kf = record { at = λ w p. Keeps-continue (m w) f (k.at w p) kf }

  Keeps-pure {ℓ} : {A : Type ℓ} (a : A) → Keeps (pure stores decode digest max_blob_size a)
  unfolding pure
  Keeps-pure a = record { at = λ w p. p }

  Keeps-fail {ℓ} :
      {A : Type ℓ} (e : Error) → Keeps {A = A} (fail stores decode digest max_blob_size e)
  unfolding fail
  Keeps-fail e = record { at = λ w p. p }

  Keeps-require : (c : Bool) (s : String) → Keeps (require stores decode digest max_blob_size c s)
  unfolding require
  Keeps-require c s = record { at = λ w p. p }

  Keeps-prefix8 : (h : Str) → Keeps (prefix8 stores decode digest max_blob_size h)
  unfolding prefix8
  Keeps-prefix8 h = record { at = λ w p. p }

  Keeps-if {ℓ} :
      {A : Type ℓ} (c : Bool) (m n : Act A)
      → (c ≡ true → Keeps m)
      → (c ≡ false → Keeps n)
      → Keeps (if c then m else n)
  Keeps-if true m n k k' = k refl
  Keeps-if false m n k k' = k' refl

  Keeps-call {ℓ} :
      {A : Type ℓ} (m : stores.State → Result A × stores.State)
      → ((s : stores.State) → P s → P (m s).1)
      → Keeps (call stores decode digest max_blob_size m)
  unfolding call
  Keeps-call m k = record { at = λ w p. k w.store p }

  Keeps-receive : Keeps (receive stores decode digest max_blob_size)
  unfolding receive
  Keeps-receive = record { at = λ w p. p }

  Keeps-write : (r : Reply) → Keeps (write stores decode digest max_blob_size r)
  unfolding write
  Keeps-write r = record { at = λ w p. ground arith }

  Keeps-decoded : (o : Option Message) → Keeps (decoded stores decode digest max_blob_size o)
  Keeps-decoded none = Keeps-fail _
  Keeps-decoded (some m) = Keeps-pure m

  Keeps-read : Keeps (read stores decode digest max_blob_size)
  unfolding read
  Keeps-read = Keeps-bind _ _ Keeps-receive (λ run. Keeps-decoded (decode run))

  Keeps-answer_version :
      (v : Option ℤ) → Keeps (answer_version stores decode digest max_blob_size v)
  Keeps-answer_version none = Keeps-fail _
  Keeps-answer_version (some v) = Keeps-bind _ _ (Keeps-require _ _) (λ _. Keeps-write _)

  Keeps-do_handshake : Keeps (do_handshake stores decode digest max_blob_size)
  unfolding do_handshake
  Keeps-do_handshake = Keeps-bind _ _ Keeps-read (λ m. Keeps-answer_version m.version)

  Keeps-read_blob_request : Keeps (read_blob_request stores decode digest max_blob_size)
  unfolding read_blob_request
  Keeps-read_blob_request = Keeps-bind _ _ Keeps-read λ m. Keeps-bind _ _ (Keeps-require _ _) λ _.
      Keeps-bind _ _ (Keeps-require _ _) λ _. Keeps-bind _ _ (Keeps-require _ _) λ _. Keeps-pure _

  Keeps-asks :
      (ask : Option (Str → stores.State → Result Bool × stores.State)) (h : Str)
      → stores.wants ≡ ask
      → Keeps (asks stores decode digest max_blob_size ask h)
  Keeps-asks none h e = Keeps-bind _ _ (Keeps-call _ (stable.has h)) (λ _. Keeps-pure _)
  Keeps-asks (some ask) h e = Keeps-call _ (stable.wants ask e h)

  Keeps-needed_for :
      (ask : Option (Str → stores.State → Result (List Str) × stores.State)) (h : Str)
      → stores.missing_blobs_for_known_stream ≡ ask
      → Keeps (needed_for stores decode digest max_blob_size ask h)
  Keeps-needed_for none h e = Keeps-pure _
  Keeps-needed_for (some ask) h e =
      Keeps-bind _ _ (Keeps-call _ (stable.missing ask e h)) (λ _. Keeps-pure _)

  Keeps-decide : (q : BlobRequest) → Keeps (decide stores decode digest max_blob_size q)
  unfolding decide
  Keeps-decide q = Keeps-bind _ _ (Keeps-asks stores.wants q.hash refl) λ wants.
      Keeps-if (q.is_sd && not wants) _ (pure stores decode digest max_blob_size (wants, []))
        (λ _. Keeps-needed_for stores.missing_blobs_for_known_stream q.hash refl)
        (λ _. Keeps-pure _)

  Keeps-read_raw_blob : (n : ℤ) → Keeps (read_raw_blob stores decode digest max_blob_size n)
  unfolding read_raw_blob panic
  Keeps-read_raw_blob (negsuc n) = record { at = λ w p. p }
  Keeps-read_raw_blob (pos n) =
      Keeps-bind _ _ Keeps-receive λ run. Keeps-bind _ _ (Keeps-require _ _) λ _. Keeps-pure _

  Keeps-reject_read :
      (q : BlobRequest) (e : Error) → Keeps (reject_read stores decode digest max_blob_size q e)
  Keeps-reject_read q e =
      Keeps-bind _ _ (Keeps-write _) λ _. Keeps-bind _ _ (Keeps-prefix8 _) λ _. Keeps-fail _

  or_reject_keeps :
      (q : BlobRequest) (r : Outcome Blob × World)
      → P r.1.store
      → P (or_reject stores decode digest max_blob_size q r).1.store
  or_reject_keeps q (returns b, w) p = p
  or_reject_keeps q (fails e, w) p = (Keeps-reject_read q e).at w p
  or_reject_keeps q (panics, w) p = p

  Keeps-read_blob : (q : BlobRequest) → Keeps (read_blob stores decode digest max_blob_size q)
  unfolding read_blob
  Keeps-read_blob q = record {
    at = λ w p. or_reject_keeps q _ ((Keeps-read_raw_blob q.size).at w p);
  }

  put_keeps :
      (is_sd : Bool) (h : Str) (b : Blob) (s : stores.State)
      → blob_hash digest b ≡ h
      → P s
      → P ((if is_sd then stores.put_sd h b else stores.put h b) s).1
  put_keeps true h b s e p = stable.put_sd h b s e p
  put_keeps false h b s e p = stable.put h b s e p

  Keeps-store_blob :
      (q : BlobRequest) (b : Blob) → Keeps (store_blob stores decode digest max_blob_size q b)
  unfolding store_blob
  Keeps-store_blob q b =
      Keeps-if _ _ _
        (λ same.
          let e : blob_hash digest b ≡ q.hash = sym ((str_eq_iff q.hash _).0 same) in
          Keeps-bind _ _ (Keeps-prefix8 _) λ _.
            Keeps-bind _ _ (Keeps-call _ (λ s p. put_keeps q.is_sd q.hash b s e p))
              λ _. Keeps-write _)
        (λ other. Keeps-bind _ _ (Keeps-write _) λ _. Keeps-fail _)

  Keeps-receive_blob : Keeps (receive_blob stores decode digest max_blob_size)
  unfolding receive_blob
  Keeps-receive_blob = Keeps-bind _ _ Keeps-read_blob_request λ q.
      Keeps-bind _ _ (Keeps-decide q) λ answer. Keeps-bind _ _ (Keeps-write _) λ _.
        Keeps-if _ _ _ (λ _. Keeps-bind _ _ (Keeps-read_blob q) (Keeps-store_blob q))
          (λ _. Keeps-pure _)

  Keeps-serve_loop : (fuel : ℕ) → Keeps (serve_loop stores decode digest max_blob_size fuel)
  unfolding serve_loop
  Keeps-serve_loop zero = Keeps-pure _
  Keeps-serve_loop (suc fuel) = Keeps-bind _ _ Keeps-receive_blob (λ _. Keeps-serve_loop fuel)

  -- Whatever bytes a client sends, and however the connection ends, the server changes the stores by
  -- reads and by puts of blobs under their own hash: every property of the stores that those keep
  -- holds after the connection.
  pub handle_conn-IsStable :
      (w : World) → P w.store → P (handle_conn stores decode digest max_blob_size w).1.store
  unfolding handle_conn
  handle_conn-IsStable w p =
      (Keeps-bind _ _ Keeps-do_handshake (λ _. Keeps-serve_loop (length w.conn.inbox))).at w p
