-- ===== src/Store/Gcache.antt =====
-- store/gcache.go: `GcacheStore`, a store with an index of bounded size. The index is a library's
-- `gcache.Cache`, a parameter: its calls return the keys that it evicts or removes, for which the
-- library calls `evictFunc` before it returns.
use reflector_go.Store.{
  Blob, BlobStore, List, ℕ, Done, Str, Result, Bool, ok, BlobTrace, err, blob_not_found,
}
use reflector_go.Prelude.{bytes, if◌then◌else◌, ◌∷◌, false, ◌+◌, [], ltb, ◌&&◌, leb}
use reflector_go.Shared.{stack, new_blob_trace}
use reflector_go.Errors.{is_not_found}

abbrev name_gcache : Str
name_gcache = bytes "gcache"

-- The calls of `gcache.Cache` that the store makes. `get` says whether the key is there.
pub record Cache : Type 1 where
  pub State : Type 0
  pub has : Str → State → Bool
  pub get : Str → State → Bool × State
  pub set : Str → State → List Str × State
  pub remove : Str → State → List Str × State

module _ (store : BlobStore) (cache : Cache) where
  pub record GcacheStore : Type 0 where
    pub store_state : store.State
    pub cache_state : cache.State

  -- `evictFunc`: the error of the deletion is dropped.
  unfoldable pub evict : List Str → store.State → store.State
  evict [] s = s
  evict (key ∷ keys) s = evict keys (store.delete key s).1

  unfoldable pub cache_set : Str → GcacheStore → GcacheStore
  unfolding evict
  cache_set hash l =
      let (evicted, c) = cache.set hash l.cache_state in
      record { store_state = evict evicted l.store_state; cache_state = c }

  unfoldable pub cache_remove : Str → GcacheStore → GcacheStore
  unfolding evict
  cache_remove hash l =
      let (evicted, c) = cache.remove hash l.cache_state in
      record { store_state = evict evicted l.store_state; cache_state = c }

  unfoldable pub has : Str → GcacheStore → Result Bool × GcacheStore
  has hash l = (ok (cache.has hash l.cache_state), l)

  abbrev is_missing : Result Blob → Bool
  is_missing (ok b) = false
  is_missing (err e) = is_not_found e

  unfoldable pub get : Str → GcacheStore → Result Blob × BlobTrace × GcacheStore
  unfolding cache_remove
  get hash l =
      let (hit, c) = cache.get hash l.cache_state in
      let (r, trace, s) = store.get hash l.store_state in
      let l' : GcacheStore = record { store_state = s; cache_state = c } in
      if hit
      then (r, stack trace name_gcache, if is_missing r then cache_remove hash l' else l')
      else (err blob_not_found, new_blob_trace name_gcache, record l { cache_state = c })

  -- What `Put` and `PutSD` share: the blob is stored only if the index took its hash.
  abbrev put_by : (store.State → Done × store.State) → Str → GcacheStore → Done × GcacheStore
  put_by on_store hash l =
      let l' = cache_set hash l in
      let (r, s) = on_store l'.store_state in
      if cache.has hash l'.cache_state then (r, record l' { store_state = s }) else (ok tt, l')

  unfoldable pub put : Str → Blob → GcacheStore → Done × GcacheStore
  unfolding cache_set
  put hash blob = put_by (store.put hash blob) hash

  unfoldable pub put_sd : Str → Blob → GcacheStore → Done × GcacheStore
  unfolding cache_set
  put_sd hash blob = put_by (store.put_sd hash blob) hash

  abbrev after_delete : Str → Done × store.State → GcacheStore → Done × GcacheStore
  after_delete hash (ok _, s) l = (ok tt, cache_remove hash (record l { store_state = s }))
  after_delete hash (err e, s) l = (err e, record l { store_state = s })

  unfoldable pub delete : Str → GcacheStore → Done × GcacheStore
  unfolding cache_remove
  delete hash l = after_delete hash (store.delete hash l.store_state) l

  -- The loop of `loadExisting`, behind `added` rounds; the error of the deletion is only logged.
  unfoldable pub load_loop : ℕ → List Str → ℕ → GcacheStore → GcacheStore
  unfolding cache_set delete
  load_loop max_items [] added l = l
  load_loop max_items (h ∷ existing) added l =
      let l' = cache_set h l in
      load_loop max_items existing (added + 1)
        (if ltb 0 max_items && leb max_items (added + 1) then (delete h l').1 else l')

  abbrev pub gcache_store : BlobStore
  gcache_store = record {
    State = GcacheStore;
    name = name_gcache;
    has = has;
    get = get;
    put = put;
    put_sd = put_sd;
    delete = delete;
    shutdown = λ l. l;
  }
