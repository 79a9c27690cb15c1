-- ===== src/Reflector/Blocklist/Blocks.antt =====
-- What an update of the blocklist leaves behind in a `DBBackedStore`.
use mathlib.Core.List.{Memᴰ}
use reflector_go.Prelude.{◌∷◌, false, ◌⊎◌}
use reflector_go.Reflector.Blocklist
use reflector_go.Reflector.Blocklist.{ValOrErr, block_values}
use reflector_go.Store.{Blob, BlobStore}
use reflector_go.Store.DbBacked.{DbBackedStore, wants}
use reflector_go.Store.DbBacked.Blocking.{Call, block_call, run}
use reflector_go.Db.Insert.{Sql}
use reflector_go.Db.Streams.{SdBlob}
use reflector_go.Errors.{Error, Result, ok, err}
use reflector_go.Prelude.Dict
use reflector_go.Prelude.Dict.{Dict}
use reflector_go.Prelude.Int.{ℤ}
use reflector_go.Prelude.{Str, Bool, List, ◌≡◌, []}

module _ (get_claim_in_tx : Str → ℤ → Result Str) (blobs : BlobStore)
    (decode : Blob → Result SdBlob) (db : Sql) (delete_on_miss : Bool) where
  abbrev Db : Type 0
  Db = DbBackedStore blobs decode db delete_on_miss

  -- The calls of `Block` that the values lead to.
  abbrev block_calls : List (Str × ValOrErr) → List (Call blobs decode db delete_on_miss)
  block_calls [] = []
  block_calls ((name, ok h) ∷ values) = block_call h ∷ block_calls values
  block_calls ((name, err e) ∷ values) = block_calls values

  -- What a value has led to: the hash stays blocked, or the error of its `Block` was logged.
  abbrev pub IsBlockedOrLogged : Str → List Error → Db → Type 0
  IsBlockedOrLogged h errors d =
      ((calls : List (Call blobs decode db delete_on_miss))
        → (wants blobs decode db delete_on_miss h (run blobs decode db delete_on_miss calls d)).0
          ≡ ok false)
      ⊎ ((e : Error) × Memᴰ e errors)
