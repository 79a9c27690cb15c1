-- ===== src/Reflector/Server/Ends.antt =====
-- A connection ends: every round takes a run of bytes, and the loop stops at the first error.
use reflector_go.Reflector.Server.{
  panic, Message, Reply, Stores, Outcome, returns, fails, panics, Session, Serve, pure, fail,
  continue, ◌>>=◌, call, require, receive, write, prefix8, handle_conn, store_blob, decide, decoded,
  read_raw_blob, BlobRequest, read, read_blob, read_blob_request, asks, do_handshake, receive_blob,
  serve_loop, needed_for, or_reject, answer_version, reject_read, Error, ℤ, Blob, Result, negsuc,
  pos,
}
use reflector_go.Prelude.{
  List, ℕ, Option, ◌<◌, arith, ◌≤◌, ◌+◌, ◌≢◌, length, Str, some, ◌≡◌, Bool, String, none,
  if◌then◌else◌, suc, refl, zero, true, false,
}

module _ (stores : Stores) (decode : List ℕ → Option Message) (digest : List ℕ → List ℕ)
    (max_blob_size : ℕ) where
  abbrev World : Type 0
  World = Session stores decode digest max_blob_size

  abbrev Act {ℓ} : Type ℓ → Type ℓ
  Act A = Serve stores decode digest max_blob_size A

  -- How many runs of bytes the connection still has.
  abbrev left : World → ℕ
  left w = length w.conn.inbox

  -- A call that takes at least `n` runs where it returns, and never adds any.
  record Takes {ℓ} {A : Type ℓ} (n : ℕ) (m : Act A) : Type ℓ where
    at : (w : World) (a : A) → (m w).0 ≡ returns a → n + left (m w).1 ≤ left w

  Takes-continue {ℓ κ} :
      {A : Type ℓ} {B : Type κ} (n k : ℕ) (v : World) (r : Outcome A × World) (f : A → Act B)
      (b : B)
      → ((a : A) → r.0 ≡ returns a → n + left r.1 ≤ left v)
      → ((a : A) → Takes k (f a))
      → (continue stores decode digest max_blob_size r f).0 ≡ returns b
      → n + k + left (continue stores decode digest max_blob_size r f).1 ≤ left v
  Takes-continue n k v (returns a, w) f b p q e = omega (arith, p a refl, (q a).at w b e)
  Takes-continue n k v (fails x, w) f b p q e = cc
  Takes-continue n k v (panics, w) f b p q e = cc

  Takes-bind {ℓ κ} :
      {A : Type ℓ} {B : Type κ} (n k : ℕ) (m : Act A) (f : A → Act B)
      → Takes n m
      → ((a : A) → Takes k (f a))
      → Takes (n + k) (◌>>=◌ stores decode digest max_blob_size m f)
  unfolding ◌>>=◌
  Takes-bind n k m f p q = record { at = λ w b e. Takes-continue n k w (m w) f b (p.at w) q e }

  -- A call that leaves the runs as they are, or takes some, for any reason.
  then_any {ℓ κ} :
      {A : Type ℓ} {B : Type κ} (m : Act A) (f : A → Act B)
      → Takes 0 m
      → ((a : A) → Takes 0 (f a))
      → Takes 0 (◌>>=◌ stores decode digest max_blob_size m f)
  then_any m f p q = Takes-bind 0 0 m f p q

  Takes-pure {ℓ} : {A : Type ℓ} (a : A) → Takes 0 (pure stores decode digest max_blob_size a)
  unfolding pure
  Takes-pure a = record { at = λ w b e. omega arith }

  Takes-fail {ℓ} :
      {A : Type ℓ} (e : Error) → Takes 0 (fail stores decode digest max_blob_size {A = A} e)
  unfolding fail
  Takes-fail e = record { at = λ w b f. cc }

  Takes-require : (c : Bool) (s : String) → Takes 0 (require stores decode digest max_blob_size c s)
  unfolding require
  Takes-require c s = record { at = λ w b e. omega arith }

  Takes-prefix8 : (h : Str) → Takes 0 (prefix8 stores decode digest max_blob_size h)
  unfolding prefix8
  Takes-prefix8 h = record { at = λ w b e. omega arith }

  Takes-call {ℓ} :
      {A : Type ℓ} (m : stores.State → Result A × stores.State)
      → Takes 0 (call stores decode digest max_blob_size m)
  unfolding call
  Takes-call m = record { at = λ w b e. omega arith }

  Takes-if {ℓ} :
      {A : Type ℓ} (c : Bool) (m n : Act A) → Takes 0 m → Takes 0 n → Takes 0 (if c then m else n)
  Takes-if true m n p q = p
  Takes-if false m n p q = q

  Takes-write : (r : Reply) → Takes 0 (write stores decode digest max_blob_size r)
  unfolding write
  Takes-write r = record { at = λ w b e. ground arith }

  -- A read takes a run, or fails.
  Takes-receive : Takes 1 (receive stores decode digest max_blob_size)
  unfolding receive
  Takes-receive = record { at = λ w b e. ground arith }

  Takes-decoded : (o : Option Message) → Takes 0 (decoded stores decode digest max_blob_size o)
  Takes-decoded none = Takes-fail _
  Takes-decoded (some m) = Takes-pure m

  Takes-read : Takes 1 (read stores decode digest max_blob_size)
  unfolding read
  Takes-read = Takes-bind 1 0 _ _ Takes-receive (λ run. Takes-decoded (decode run))

  Takes-read_blob_request : Takes 1 (read_blob_request stores decode digest max_blob_size)
  unfolding read_blob_request
  Takes-read_blob_request = Takes-bind 1 0 _ _ Takes-read λ m.
      then_any _ _ (Takes-require _ _) λ _.
        then_any _ _ (Takes-require _ _) λ _. then_any _ _ (Takes-require _ _) λ _. Takes-pure _

  Takes-asks :
      (ask : Option (Str → stores.State → Result Bool × stores.State)) (h : Str)
      → Takes 0 (asks stores decode digest max_blob_size ask h)
  Takes-asks none h = then_any _ _ (Takes-call _) (λ _. Takes-pure _)
  Takes-asks (some ask) h = Takes-call _

  Takes-needed_for :
      (ask : Option (Str → stores.State → Result (List Str) × stores.State)) (h : Str)
      → Takes 0 (needed_for stores decode digest max_blob_size ask h)
  Takes-needed_for none h = Takes-pure _
  Takes-needed_for (some ask) h = then_any _ _ (Takes-call _) (λ _. Takes-pure _)

  Takes-decide : (q : BlobRequest) → Takes 0 (decide stores decode digest max_blob_size q)
  unfolding decide
  Takes-decide q = then_any _ _ (Takes-asks stores.wants q.hash) λ wants.
      Takes-if _ _ _ (Takes-needed_for stores.missing_blobs_for_known_stream q.hash) (Takes-pure _)

  Takes-fewer {ℓ} : {A : Type ℓ} (m : Act A) → Takes 1 m → Takes 0 m
  Takes-fewer m p = record { at = λ w a e. omega (arith, p.at w a e) }

  Takes-read_raw_blob : (n : ℤ) → Takes 0 (read_raw_blob stores decode digest max_blob_size n)
  unfolding read_raw_blob panic
  Takes-read_raw_blob (negsuc n) = record { at = λ w b e. cc }
  Takes-read_raw_blob (pos n) =
      then_any _ _ (Takes-fewer _ Takes-receive)
        λ run. then_any _ _ (Takes-require _ _) λ _. Takes-pure _

  Takes-reject_read :
      (q : BlobRequest) (e : Error) → Takes 0 (reject_read stores decode digest max_blob_size q e)
  Takes-reject_read q e =
      then_any _ _ (Takes-write _) λ _. then_any _ _ (Takes-prefix8 _) λ _. Takes-fail _

  reject_read_fails :
      (q : BlobRequest) (e : Error) (w : World) (b : Blob)
      → (reject_read stores decode digest max_blob_size q e w).0 ≢ returns b
  unfolding ◌>>=◌ write prefix8 fail
  reject_read_fails q e w b f = ground arith

  or_reject_takes :
      (q : BlobRequest) (v : World) (r : Outcome Blob × World) (b : Blob)
      → ((a : Blob) → r.0 ≡ returns a → 0 + left r.1 ≤ left v)
      → (or_reject stores decode digest max_blob_size q r).0 ≡ returns b
      → 0 + left (or_reject stores decode digest max_blob_size q r).1 ≤ left v
  or_reject_takes q v (returns a, w) b p e = p a refl
  or_reject_takes q v (fails x, w) b p e = absurd (reject_read_fails q x w b e)
  or_reject_takes q v (panics, w) b p e = cc

  Takes-read_blob : (q : BlobRequest) → Takes 0 (read_blob stores decode digest max_blob_size q)
  unfolding read_blob
  Takes-read_blob q = record {
    at = λ w b e. or_reject_takes q w _ b ((Takes-read_raw_blob q.size).at w) e;
  }

  Takes-store_blob :
      (q : BlobRequest) (b : Blob) → Takes 0 (store_blob stores decode digest max_blob_size q b)
  unfolding store_blob
  Takes-store_blob q b =
      Takes-if _ _ _
        (then_any _ _ (Takes-prefix8 _) λ _. then_any _ _ (Takes-call _) λ _. Takes-write _)
        (then_any _ _ (Takes-write _) λ _. Takes-fail _)

  Takes-receive_blob : Takes 1 (receive_blob stores decode digest max_blob_size)
  unfolding receive_blob
  Takes-receive_blob = Takes-bind 1 0 _ _ Takes-read_blob_request λ q.
      then_any _ _ (Takes-decide q) λ answer.
        then_any _ _ (Takes-write _)
          λ _. Takes-if _ _ _ (then_any _ _ (Takes-read_blob q) (Takes-store_blob q)) (Takes-pure _)

  after_round :
      (fuel : ℕ) (v : World) (r : Outcome (Unit {0}) × World)
      → ((a : Unit {0}) → r.0 ≡ returns a → 1 + left r.1 ≤ left v)
      → left v < suc fuel
      → ((w : World)
          → left w < fuel
          → (serve_loop stores decode digest max_blob_size fuel w).0 ≢ returns tt)
      → (continue stores decode digest max_blob_size r
          (λ _. serve_loop stores decode digest max_blob_size fuel)).0
        ≢ returns tt
  after_round fuel v (returns a, w) p q ih = ih w (omega (arith, p a refl))
  after_round fuel v (fails x, w) p q ih = λ e. cc
  after_round fuel v (panics, w) p q ih = λ e. cc

  serve_loop_ends :
      (fuel : ℕ) (w : World)
      → left w < fuel
      → (serve_loop stores decode digest max_blob_size fuel w).0 ≢ returns tt
  unfolding serve_loop ◌>>=◌
  serve_loop_ends zero w p = absurd (omega arith)
  serve_loop_ends (suc fuel) w p =
      after_round fuel w _ (Takes-receive_blob.at w) p (serve_loop_ends fuel)

  Takes-answer_version :
      (v : Option ℤ) → Takes 0 (answer_version stores decode digest max_blob_size v)
  Takes-answer_version none = Takes-fail _
  Takes-answer_version (some v) = then_any _ _ (Takes-require _ _) (λ _. Takes-write _)

  Takes-do_handshake : Takes 1 (do_handshake stores decode digest max_blob_size)
  unfolding do_handshake
  Takes-do_handshake = Takes-bind 1 0 _ _ Takes-read (λ m. Takes-answer_version m.version)

  after_handshake :
      (fuel : ℕ) (v : World) (r : Outcome (Unit {0}) × World)
      → left v ≤ fuel
      → ((a : Unit {0}) → r.0 ≡ returns a → 1 + left r.1 ≤ left v)
      → (continue stores decode digest max_blob_size r
          (λ _. serve_loop stores decode digest max_blob_size fuel)).0
        ≢ returns tt
  after_handshake fuel v (returns a, w) q p = serve_loop_ends fuel w (omega (arith, p a refl))
  after_handshake fuel v (fails x, w) q p = λ e. cc
  after_handshake fuel v (panics, w) q p = λ e. cc

  -- Every connection ends, and with an error or a panic: the rounds that `handle_conn` allows are
  -- more than it needs, whatever the client sends and the stores answer.
  pub handle_conn_ends :
      (w : World) → (handle_conn stores decode digest max_blob_size w).0 ≢ returns tt
  unfolding handle_conn ◌>>=◌
  handle_conn_ends w =
      after_handshake (length w.conn.inbox) w (do_handshake stores decode digest max_blob_size w)
        (omega arith) (Takes-do_handshake.at w)
