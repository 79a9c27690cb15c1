-- ===== src/Commands.antt =====
-- cmd/reflector.go: `diskCacheParams`, and `doClean`, which prunes a disk cache. A `log.Fatal`, which ends the
-- process, is an error. The parsing of a size (`datasize`) is a parameter. The workers of `doClean` delete
-- in any order: `visit`; its stopper is left out.
pub mod Params
pub mod Stacks
use reflector_go.Order.{mem_str}
use reflector_go.Split.{split}
use reflector_go.Prelude.Int.{ℤ, pos, negsuc}
use reflector_go.Errors.{Error, Result, ok, err, error_text, Done}
use reflector_go.Store.{Blob, BlobStore}
use reflector_go.Store.DbBacked
use reflector_go.Store.DbBacked.{DbBackedStore, lift}
use reflector_go.Db.Tables.{Tables}
use reflector_go.Db.Insert.{Sql}
use reflector_go.Db.Streams.{SdBlob}
use reflector_go.Db.Manage.{count, least_recently_accessed_hashes}
use reflector_go.Prelude.{
  Str, true, ℕ, Bool, List, ◌∷◌, if◌then◌else◌, ◌/◌, false, ltb, ◌==◌, bytes, [], ◌^◌, leb, ◌-◌,
}

abbrev pub cache_managers : List Str
cache_managers = bytes "localdb" ∷ bytes "lfu" ∷ bytes "arc" ∷ bytes "lru" ∷ bytes "simple" ∷ []

-- The size, the path and the manager of a disk cache.
pub record CacheParams : Type 0 where
  pub size : ℤ
  pub path : Str
  pub manager : Str

-- `int(…)` of a 64-bit unsigned number
abbrev pub as_int : ℕ → ℤ
as_int n = if ltb n (2 ^ 63) then pos n else negsuc (2 ^ 64 - 1 - n)

-- `len(path) == 0 || path[0] != '/'`, turned around
abbrev pub is_absolute : Str → Bool
is_absolute [] = false
is_absolute (c ∷ path) = c == b'/'

module _ (parse_size : Str → Result ℕ) where
  abbrev pub sized : Str → Str → Result ℕ → Result CacheParams
  sized path manager (err e) = err e
  sized path manager (ok n) =
      if n == 0
      then err (error_text "disk cache size must be more than 0")
      else ok (record { size = as_int n; path = path; manager = manager })

  -- The part of `diskCacheParams` behind the split.
  unfoldable pub parts_params : List Str → Result CacheParams
  parts_params (size ∷ path ∷ manager ∷ []) =
      if is_absolute path
      then (if mem_str manager cache_managers
          then sized path manager (parse_size size)
          else err (error_text "specified cache manager is not supported"))
      else err (error_text "disk cache paths must start with '/'")
  parts_params _ = err (error_text "does is formatted incorrectly")

  -- `diskCacheParams`
  unfoldable pub disk_cache_params : Str → Result CacheParams
  unfolding parts_params
  disk_cache_params [] = ok (record { size = pos 0; path = []; manager = [] })
  disk_cache_params (c ∷ s) = parts_params (split b':' (c ∷ s))

module _ (blobs : BlobStore) (decode : Blob → Result SdBlob) (db : Sql) where
  abbrev pub Cache : Type 0
  Cache = DbBackedStore blobs decode db true

  abbrev pub logged : Done → List Error → List Error
  logged (ok u) errors = errors
  logged (err e) errors = e ∷ errors

  -- What the workers do, with the errors that they log.
  unfoldable pub delete_loop : List Str → Cache → List Error × Cache
  delete_loop [] d = ([], d)
  delete_loop (h ∷ hashes) d =
      let (r, d') = DbBacked.delete blobs decode db true h d in
      let (errors, t) = delete_loop hashes d' in (logged r errors, t)

  abbrev pub delete_found :
      (List Str → List Str) → Result (List Str) × Tables → Cache → Result (List Error) × Cache
  delete_found visit (ok hashes, t) d =
      let (errors, d') = delete_loop (visit hashes) (record d { tables = t }) in (ok errors, d')
  delete_found visit (err e, t) d = (err e, record d { tables = t })

  abbrev pub clean_if :
      ℕ → (List Str → List Str) → Result ℕ × Tables → Cache → Result (List Error) × Cache
  clean_if max_items visit (err e, t) d = (err e, record d { tables = t })
  clean_if max_items visit (ok blobs_count, t) d =
      let d' : Cache = record d { tables = t } in
      let cleaned =
        delete_found visit (least_recently_accessed_hashes db (blobs_count / 10) t) d' in
      if leb max_items blobs_count then cleaned else (ok [], d')

  -- `doClean`
  unfoldable pub do_clean : ℕ → (List Str → List Str) → Cache → Result (List Error) × Cache
  unfolding count least_recently_accessed_hashes delete_loop
  do_clean max_items visit d = clean_if max_items visit (count db d.tables) d
