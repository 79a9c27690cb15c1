-- ===== src/Store/DbBacked/Blocking/Kept.antt =====
-- What the methods of `DBBackedStore` leave in the map of blocked hashes.
use reflector_go.Store.{Blob, BlobStore, Result, Error, ok, err}
use reflector_go.Db.Tables.{Tables}
use reflector_go.Db.Insert.{Sql}
use reflector_go.Db.Lookup.{has_blob, truth_at}
use reflector_go.Db.Streams.{SdBlob}
use reflector_go.Prelude.Dict
use reflector_go.Prelude.Dict.{Dict, lookup-insert}
use reflector_go.Store.DbBacked.{
  DbBackedStore, Method, on_db, on_blobs, pure, fail, lift, continue, ◌>>=◌, has, get, get_blob,
  get_if, put, put_sd, delete, init_blocked, blocked_or_read, set_blocked, is_blocked, mark_blocked,
  block, block_unblocked, wants, missing_blobs_for_known_stream, is_miss,
}
use reflector_go.Prelude.{
  Str, Bool, if◌then◌else◌, ◌≡◌, true, arith, some, false, Option, Bool-cases, ◌&&◌, refl, none,
  inl, inr,
}

truth_at-insert :
    (h k : Str) (m : Dict Bool) → truth_at h m ≡ true → truth_at h (Dict.insert k true m) ≡ true
truth_at-insert h k m e = ground (arith, lookup-insert k h true m)

module _ (blobs : BlobStore) (decode : Blob → Result SdBlob) (db : Sql)
    (delete_on_miss : Bool) where
  abbrev Store : Type 0
  Store = DbBackedStore blobs decode db delete_on_miss

  -- The map of blocked hashes is in memory, and the hash is in it.
  abbrev pub IsBlocked : Str → Store → Type 0
  IsBlocked h d = (m : Dict Bool) × (d.blocked ≡ some m) × (truth_at h m ≡ true)

  module _ (h : Str) where
    pub record Keeps {ℓ} {A : Type ℓ} (m : Method blobs decode db delete_on_miss A) : Type ℓ where
      pub at : (d : Store) → IsBlocked h d → IsBlocked h (m d).1

    Keeps-continue {ℓ κ} :
        {A : Type ℓ} {B : Type κ} (r : Result A × Store)
        (f : A → Method blobs decode db delete_on_miss B)
        → IsBlocked h r.1
        → ((a : A) → Keeps (f a))
        → IsBlocked h (continue blobs decode db delete_on_miss r f).1
    Keeps-continue (ok a, d) f p k = (k a).at d p
    Keeps-continue (err e, d) f p k = p

    Keeps-bind {ℓ κ} :
        {A : Type ℓ} {B : Type κ} (m : Method blobs decode db delete_on_miss A)
        (f : A → Method blobs decode db delete_on_miss B)
        → Keeps m
        → ((a : A) → Keeps (f a))
        → Keeps (◌>>=◌ blobs decode db delete_on_miss m f)
    unfolding ◌>>=◌
    Keeps-bind m f k kf = record { at = λ d p. Keeps-continue (m d) f (k.at d p) kf }

    Keeps-pure {ℓ} : {A : Type ℓ} (a : A) → Keeps (pure blobs decode db delete_on_miss a)
    unfolding pure
    Keeps-pure a = record { at = λ d p. p }

    Keeps-fail {ℓ} :
        {A : Type ℓ} (e : Error) → Keeps {A = A} (fail blobs decode db delete_on_miss e)
    unfolding fail
    Keeps-fail e = record { at = λ d p. p }

    Keeps-lift {ℓ} : {A : Type ℓ} (r : Result A) → Keeps (lift blobs decode db delete_on_miss r)
    unfolding lift
    Keeps-lift r = record { at = λ d p. p }

    Keeps-on_db {ℓ} :
        {A : Type ℓ} (m : Tables → Result A × Tables)
        → Keeps (on_db blobs decode db delete_on_miss m)
    unfolding on_db
    Keeps-on_db m = record { at = λ d p. p }

    Keeps-on_blobs {ℓ} :
        {A : Type ℓ} (m : blobs.State → Result A × blobs.State)
        → Keeps (on_blobs blobs decode db delete_on_miss m)
    unfolding on_blobs
    Keeps-on_blobs m = record { at = λ d p. p }

    Keeps-if {ℓ} :
        {A : Type ℓ} (c : Bool) (m n : Method blobs decode db delete_on_miss A)
        → Keeps m
        → Keeps n
        → Keeps (if c then m else n)
    Keeps-if true m n k k' = k
    Keeps-if false m n k k' = k'

    pub Keeps-has : (k : Str) → Keeps (has blobs decode db delete_on_miss k)
    unfolding has
    Keeps-has k = record { at = λ d p. p }

    pub Keeps-missing :
        (k : Str) → Keeps (missing_blobs_for_known_stream blobs decode db delete_on_miss k)
    unfolding missing_blobs_for_known_stream
    Keeps-missing k = record { at = λ d p. p }

    pub Keeps-delete : (k : Str) → Keeps (delete blobs decode db delete_on_miss k)
    unfolding delete
    Keeps-delete k = Keeps-bind _ _ (Keeps-on_blobs _) (λ _. Keeps-on_db _)

    pub Keeps-put : (k : Str) (b : Blob) → Keeps (put blobs decode db delete_on_miss k b)
    unfolding put
    Keeps-put k b = Keeps-bind _ _ (Keeps-on_blobs _) (λ _. Keeps-on_db _)

    pub Keeps-put_sd : (k : Str) (b : Blob) → Keeps (put_sd blobs decode db delete_on_miss k b)
    unfolding put_sd
    Keeps-put_sd k b =
        Keeps-bind _ _ (Keeps-lift _) λ sd.
          Keeps-if _ _ _ (Keeps-fail _) (Keeps-bind _ _ (Keeps-on_blobs _) (λ _. Keeps-on_db _))

    get_blob_keeps :
        (k : Str) (d : Store)
        → IsBlocked h d
        → IsBlocked h (get_blob blobs decode db delete_on_miss k d).2
    unfolding get_blob
    get_blob_keeps k d p =
        let (r, trace, s) = blobs.get k d.blob_state in
        let d' : Store = record d { blob_state = s } in
        elim (Bool-cases (delete_on_miss && is_miss blobs decode db delete_on_miss r)) [
          | inl drop ↦ rw drop ((Keeps-delete k).at d' p)
          | inr keep ↦ rw keep p
        ]

    get_if_keeps :
        (k : Str) (r : Result Bool × Store)
        → IsBlocked h r.1
        → IsBlocked h (get_if blobs decode db delete_on_miss k r).2
    get_if_keeps k (ok true, d) p = get_blob_keeps k d p
    get_if_keeps k (ok false, d) p = p
    get_if_keeps k (err e, d) p = p

    pub get_keeps :
        (k : Str) (d : Store)
        → IsBlocked h d
        → IsBlocked h (get blobs decode db delete_on_miss k d).2
    unfolding get
    get_keeps k d p = get_if_keeps k _ ((Keeps-on_db (has_blob db k true)).at d p)

    -- With the map in memory `initBlocked` changes nothing.
    in_memory :
        (o : Option (Dict Bool)) (d : Store)
        → d.blocked ≡ o
        → IsBlocked h d
        → IsBlocked h (blocked_or_read blobs decode db delete_on_miss o d).1
    in_memory none d e p = ground (arith, p)
    in_memory (some m) d e p = p

    Keeps-init_blocked : Keeps (init_blocked blobs decode db delete_on_miss)
    unfolding init_blocked
    Keeps-init_blocked = record { at = λ d p. in_memory d.blocked d refl p }

    Keeps-is_blocked : (k : Str) → Keeps (is_blocked blobs decode db delete_on_miss k)
    unfolding is_blocked
    Keeps-is_blocked k = Keeps-bind _ _ Keeps-init_blocked (λ _. Keeps-pure _)

    pub Keeps-wants : (k : Str) → Keeps (wants blobs decode db delete_on_miss k)
    unfolding wants
    Keeps-wants k = Keeps-bind _ _ (Keeps-is_blocked k) λ blocked.
        Keeps-if blocked (pure blobs decode db delete_on_miss false) _ (Keeps-pure _)
          (Keeps-bind _ _ (Keeps-has k) (λ _. Keeps-pure _))

    -- Marking adds to the map that `initBlocked` returns, the one in memory.
    mark_keeps :
        (k : Str) (o : Option (Dict Bool)) (d : Store)
        → d.blocked ≡ o
        → IsBlocked h d
        → IsBlocked h
            (continue blobs decode db delete_on_miss
              (blocked_or_read blobs decode db delete_on_miss o d)
              (λ m. set_blocked blobs decode db delete_on_miss (Dict.insert k true m))).1
    unfolding set_blocked
    mark_keeps k none d e p = ground (arith, p)
    mark_keeps k (some m) d e p =
        (Dict.insert k true m, refl, truth_at-insert h k m (ground (arith, p)))

    Keeps-mark_blocked : (k : Str) → Keeps (mark_blocked blobs decode db delete_on_miss k)
    unfolding mark_blocked ◌>>=◌
    Keeps-mark_blocked k = record { at = λ d p. mark_keeps k d.blocked d refl p }

    Keeps-block_unblocked : (k : Str) → Keeps (block_unblocked blobs decode db delete_on_miss k)
    unfolding block_unblocked
    Keeps-block_unblocked k = Keeps-bind _ _ (Keeps-on_db _) λ _.
        Keeps-bind _ _ (Keeps-on_db _) λ present.
          Keeps-bind _ _
            (Keeps-if present _ (pure blobs decode db delete_on_miss tt)
              (Keeps-bind _ _ (Keeps-on_blobs _) (λ _. Keeps-on_db _)) (Keeps-pure _))
            λ _. Keeps-mark_blocked k

    pub Keeps-block : (k : Str) → Keeps (block blobs decode db delete_on_miss k)
    unfolding block
    Keeps-block k = Keeps-bind _ _ (Keeps-is_blocked k) λ blocked.
        Keeps-if blocked (pure blobs decode db delete_on_miss tt) _ (Keeps-pure _)
          (Keeps-block_unblocked k)
