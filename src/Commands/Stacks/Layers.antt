-- ===== src/Commands/Stacks/Layers.antt =====
-- What the reflector's servers serve from: the caches in their order, and the stores below them.
use reflector_go.Commands.Stacks.{
  Stack, Flags, caching, peer_store, http3_store, http_store, s3_store, cloud_front_ro,
  cloud_front_rw, ittt, db_backed, disk, mem, gcache, lru, cache_store, Servers, init_stores,
  Result, CacheParams, ok, disk_cache_params, err, equals, pos,
}
use reflector_go.Prelude.{
  List, Str, ◌≡◌, ◌∷◌, true, false, [], ℕ, ◌++◌, if◌then◌else◌, ltb, some, none, bytes, not,
}

-- The caches of a stack, from the one that is asked first, and the store below them.
abbrev pub layers : Stack → List Stack × Stack
layers (caching name origin cache) = let (caches, s) = layers origin in (cache ∷ caches, s)
layers (peer_store a) = ([], peer_store a)
layers (http3_store a) = ([], http3_store a)
layers (http_store a) = ([], http_store a)
layers s3_store = ([], s3_store)
layers (cloud_front_ro u) = ([], cloud_front_ro u)
layers (cloud_front_rw s t) = ([], cloud_front_rw s t)
layers (ittt s t) = ([], ittt s t)
layers (db_backed s c d) = ([], db_backed s c d)
layers (disk p n) = ([], disk p n)
layers mem = ([], mem)
layers (gcache name s n e) = ([], gcache name s n e)

-- The database's store, if there is one, is the outermost of the stores below the caches.
abbrev pub IsOuterDb : Flags → Stack → Type 0
IsOuterDb flags s =
    flags.use_db ≡ true → (below : Stack) × (s ≡ db_backed below flags.db_conn false)

module _ (parse_size : Str → Result ℕ) (max_blob_size : ℕ) where
  -- The cache that the text of its parameters asks for, or none.
  abbrev pub asked_cache : Result CacheParams → List Stack
  asked_cache (err e) = []
  asked_cache (ok p) = if equals p.size 0 then [] else cache_store parse_size max_blob_size p ∷ []

  abbrev pub asked_mem : ℕ → List Stack
  asked_mem size = if ltb 0 size then gcache (bytes "mem") mem (pos size) lru ∷ [] else []

  -- The caches that the flags ask for: the one in memory first, then the optional one on disk, then the
  -- one on disk.
  abbrev pub asked_caches : Flags → List Stack
  asked_caches flags =
      asked_mem flags.mem_cache
      ++ (asked_cache (disk_cache_params parse_size flags.secondary_disk_cache)
          ++ asked_cache (disk_cache_params parse_size flags.disk_cache))

  -- What the command starts.
  pub record IsAssembled (flags : Flags) (servers : Servers parse_size max_blob_size) : Type 0 where
    pub underlying : Stack
    pub made : init_stores flags ≡ ok underlying
    pub outer : layers servers.peer ≡ (asked_caches flags, underlying)
    pub same : (servers.http3 ≡ servers.peer) × (servers.http ≡ servers.peer)
    pub uploads : servers.reflector ≡ (
        if flags.disable_uploads
        then none
        else some (underlying, servers.peer, not flags.disable_blocklist))
    pub outermost : IsOuterDb flags underlying

  -- Stacks without caches.
  abbrev IsBare : Stack → Type 0
  IsBare s = layers s ≡ ([], s)
