-- ===== src/Store/DbBacked/Blocking.antt =====
-- A hash that was blocked stays blocked.
pub mod Kept
use reflector_go.Store.DbBacked.Blocking.Kept.{
  IsBlocked, Keeps, get_keeps, Keeps-has, Keeps-delete, Keeps-block, Keeps-missing, Keeps-put,
  Keeps-put_sd, Keeps-wants,
}
use reflector_go.Store.{Blob, BlobStore, Result, Error, ok, err}
use reflector_go.Db.Tables.{Tables}
use reflector_go.Db.Insert.{Sql}
use reflector_go.Db.Lookup.{has_blob, truth_at}
use reflector_go.Db.Streams.{SdBlob}
use reflector_go.Prelude.Dict
use reflector_go.Prelude.Dict.{Dict, lookup-insert}
use reflector_go.Store.DbBacked.{
  DbBackedStore, Method, on_db, on_blobs, pure, fail, lift, continue, ◌>>=◌, has, get, get_blob,
  get_if, put, put_sd, delete, init_blocked, blocked_or_read, set_blocked, is_blocked, mark_blocked,
  block, block_unblocked, wants, missing_blobs_for_known_stream, is_miss,
}
use reflector_go.Prelude.{
  ◌∷◌, Str, Bool, List, if◌then◌else◌, ◌≡◌, true, [], arith, some, false, Option, Bool-cases, ◌&&◌,
  refl, none, inl, inr,
}
use reflector_go.Errors.{Result-cases}
use reflector_go.Db.Manage.{get_blocked}

truth_at-insert_self : (h : Str) (m : Dict Bool) → truth_at h (Dict.insert h true m) ≡ true
truth_at-insert_self h m = ground (arith, Dict.lookup-insert_self h true m)

module _ (blobs : BlobStore) (decode : Blob → Result SdBlob) (db : Sql)
    (delete_on_miss : Bool) where
  abbrev Store : Type 0
  Store = DbBackedStore blobs decode db delete_on_miss

  -- A call of one of the store's methods.
  pub data Call : Type 0 where
    has_call get_call delete_call block_call wants_call missing_call : Str → Call
    put_call put_sd_call : Str → Blob → Call

  unfoldable pub run : List Call → Store → Store
  run [] d = d
  run (has_call h ∷ calls) d = run calls (has blobs decode db delete_on_miss h d).1
  run (get_call h ∷ calls) d = run calls (get blobs decode db delete_on_miss h d).2
  run (delete_call h ∷ calls) d = run calls (delete blobs decode db delete_on_miss h d).1
  run (block_call h ∷ calls) d = run calls (block blobs decode db delete_on_miss h d).1
  run (wants_call h ∷ calls) d = run calls (wants blobs decode db delete_on_miss h d).1
  run (missing_call h ∷ calls) d =
      run calls (missing_blobs_for_known_stream blobs decode db delete_on_miss h d).1
  run (put_call h b ∷ calls) d = run calls (put blobs decode db delete_on_miss h b d).1
  run (put_sd_call h b ∷ calls) d = run calls (put_sd blobs decode db delete_on_miss h b d).1

  module _ (h : Str) where
    run-IsBlocked :
        (calls : List Call) (d : Store)
        → IsBlocked blobs decode db delete_on_miss h d
        → IsBlocked blobs decode db delete_on_miss h (run calls d)
    unfolding run
    run-IsBlocked [] d p = p
    run-IsBlocked (has_call k ∷ calls) d p =
        run-IsBlocked calls _ ((Keeps-has blobs decode db delete_on_miss h k).at d p)
    run-IsBlocked (get_call k ∷ calls) d p =
        run-IsBlocked calls _ (get_keeps blobs decode db delete_on_miss h k d p)
    run-IsBlocked (delete_call k ∷ calls) d p =
        run-IsBlocked calls _ ((Keeps-delete blobs decode db delete_on_miss h k).at d p)
    run-IsBlocked (block_call k ∷ calls) d p =
        run-IsBlocked calls _ ((Keeps-block blobs decode db delete_on_miss h k).at d p)
    run-IsBlocked (wants_call k ∷ calls) d p =
        run-IsBlocked calls _ ((Keeps-wants blobs decode db delete_on_miss h k).at d p)
    run-IsBlocked (missing_call k ∷ calls) d p =
        run-IsBlocked calls _ ((Keeps-missing blobs decode db delete_on_miss h k).at d p)
    run-IsBlocked (put_call k b ∷ calls) d p =
        run-IsBlocked calls _ ((Keeps-put blobs decode db delete_on_miss h k b).at d p)
    run-IsBlocked (put_sd_call k b ∷ calls) d p =
        run-IsBlocked calls _ ((Keeps-put_sd blobs decode db delete_on_miss h k b).at d p)

    wants-IsBlocked :
        (d : Store)
        → IsBlocked blobs decode db delete_on_miss h d
        → (wants blobs decode db delete_on_miss h d).0 ≡ ok false
    unfolding wants is_blocked init_blocked ◌>>=◌
    wants-IsBlocked d (m, e, t) = ground (arith, e, t)

    -- The call puts the hash into the map, if it returns no error.
    record Marks (m : Method blobs decode db delete_on_miss (Unit {0})) : Type 0 where
      at : (d : Store) → (m d).0 ≡ ok tt → IsBlocked blobs decode db delete_on_miss h (m d).1

    Marks-continue {ℓ} :
        {A : Type ℓ} (r : Result A × Store)
        (f : A → Method blobs decode db delete_on_miss (Unit {0}))
        → ((a : A) → Marks (f a))
        → (continue blobs decode db delete_on_miss r f).0 ≡ ok tt
        → IsBlocked blobs decode db delete_on_miss h (continue blobs decode db delete_on_miss r f).1
    Marks-continue (ok a, d) f k e = (k a).at d e
    Marks-continue (err x, d) f k e = cc

    Marks-bind {ℓ} :
        {A : Type ℓ} (m : Method blobs decode db delete_on_miss A)
        (f : A → Method blobs decode db delete_on_miss (Unit {0}))
        → ((a : A) → Marks (f a))
        → Marks (◌>>=◌ blobs decode db delete_on_miss m f)
    unfolding ◌>>=◌
    Marks-bind m f k = record { at = λ d e. Marks-continue (m d) f k e }

    Marks-set_blocked :
        (m : Dict Bool) → Marks (set_blocked blobs decode db delete_on_miss (Dict.insert h true m))
    unfolding set_blocked
    Marks-set_blocked m = record {
      at = λ d e. (Dict.insert h true m, refl, truth_at-insert_self h m);
    }

    Marks-mark_blocked : Marks (mark_blocked blobs decode db delete_on_miss h)
    unfolding mark_blocked
    Marks-mark_blocked = Marks-bind _ _ Marks-set_blocked

    -- What `initBlocked` returns is the map that is then in memory.
    init_blocked_lem :
        (o : Option (Dict Bool)) (d : Store) {m : Dict Bool}
        → d.blocked ≡ o
        → (blocked_or_read blobs decode db delete_on_miss o d).0 ≡ ok m
        → (blocked_or_read blobs decode db delete_on_miss o d).1.blocked ≡ some m
    init_blocked_lem none d e f = ground (arith, Result-cases (get_blocked d.tables).0)
    init_blocked_lem (some m) d e f = ground arith

    Marks-block_unblocked : Marks (block_unblocked blobs decode db delete_on_miss h)
    unfolding block_unblocked
    Marks-block_unblocked =
        Marks-bind _ _ λ _. Marks-bind _ _ λ _. Marks-bind _ _ λ _. Marks-mark_blocked

    -- The early return of `Block`: the hash is in the map.
    Marks-early :
        (r : Result (Dict Bool) × Store)
        → ((m : Dict Bool) → r.0 ≡ ok m → r.1.blocked ≡ some m)
        → let out =
            continue blobs decode db delete_on_miss
              (continue blobs decode db delete_on_miss r
                (λ m. pure blobs decode db delete_on_miss (truth_at h m)))
              (λ b.
                if b
                then pure blobs decode db delete_on_miss tt
                else block_unblocked blobs decode db delete_on_miss h) in
          out.0 ≡ ok tt → IsBlocked blobs decode db delete_on_miss h out.1
    unfolding pure
    Marks-early (ok m, d) loaded e = elim (Bool-cases (truth_at h m)) [
      | inl old ↦ rw old (m, loaded m refl, old)
      | inr new ↦ rw new (Marks-block_unblocked.at d (rw new at e))
    ]
    Marks-early (err x, d) loaded e = cc

    Marks-block : Marks (block blobs decode db delete_on_miss h)
    unfolding block is_blocked init_blocked ◌>>=◌
    Marks-block = record {
      at = λ d e.
          Marks-early (blocked_or_read blobs decode db delete_on_miss d.blocked d)
            (λ m f. init_blocked_lem d.blocked d refl f) e;
    }

    -- Once `Block` has returned without an error for a hash, `Wants` answers false for it, with no
    -- error, after any calls of the store's methods in any order, `Delete` and `PutSD` included, and
    -- whatever the blob store and the database answer.
    pub block-wants :
        (d : Store) (calls : List Call)
        → (block blobs decode db delete_on_miss h d).0 ≡ ok tt
        → let d' = run calls (block blobs decode db delete_on_miss h d).1 in
          (wants blobs decode db delete_on_miss h d').0 ≡ ok false
    block-wants d calls e = wants-IsBlocked _ (run-IsBlocked calls _ (Marks-block.at d e))
