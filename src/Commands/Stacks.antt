-- ===== src/Commands/Stacks.antt =====
-- cmd/reflector.go: `reflectorCmd` and the functions that put its stack of stores together. A stack is the
-- description of the stores that the constructors make; the starting of servers and connections is left
-- out, and a `log.Fatal`, which ends the process, is an error. `max_blob_size` is `stream.MaxBlobSize`, a
-- power of two, so that the division of float64 and its truncation are a division of integers.
pub mod Layers
use reflector_go.Prelude.{
  Bool, Str, if◌then◌else◌, bytes, str_eq, ℕ, not, Option, false, [], some, ltb, true, ◌&&◌, none,
  ◌/◌, suc, zero,
}
use reflector_go.Errors.{Result, ok, err}
use reflector_go.Prelude.Int.{ℤ, equals}
use reflector_go.Commands.{CacheParams, disk_cache_params, pos, error_text, negsuc}

-- `store.EvictionStrategy`
pub data Strategy : Type 0 where
  lfu arc lru simple : Strategy

pub data Stack : Type 0 where
  peer_store http3_store http_store : Str → Stack
  s3_store : Stack
  cloud_front_ro : Str → Stack
  cloud_front_rw : Stack → Stack → Stack
  ittt : Stack → Stack → Stack
  -- over a store and a database, by its connection, with `deleteOnMiss`
  db_backed : Stack → Str → Bool → Stack
  disk : Str → ℕ → Stack
  mem : Stack
  gcache : Str → Stack → ℤ → Strategy → Stack
  caching : Str → Stack → Stack → Stack

-- The flags and the configuration.
pub record Flags : Type 0 where
  pub upstream_reflector : Str
  pub upstream_protocol : Str
  pub origin_endpoint : Str
  pub origin_endpoint_fallback : Str
  pub conf : Str
  pub db_conn : Str
  pub use_db : Bool
  pub disk_cache : Str
  pub secondary_disk_cache : Str
  pub mem_cache : ℕ
  pub disable_uploads : Bool
  pub disable_blocklist : Bool

-- `initUpstreamStore`
unfoldable pub init_upstream_store : Flags → Result (Option Stack)
init_upstream_store flags =
    if str_eq flags.upstream_reflector []
    then ok none
    else if str_eq flags.upstream_protocol (bytes "tcp")
    then ok (some (peer_store flags.upstream_reflector))
    else if str_eq flags.upstream_protocol (bytes "http3")
    then ok (some (http3_store flags.upstream_reflector))
    else if str_eq flags.upstream_protocol (bytes "http")
    then ok (some (http_store flags.upstream_reflector))
    else err (error_text "protocol is not recognized")

-- `conf != "none"`
abbrev pub has_s3 : Flags → Bool
has_s3 flags = not (str_eq flags.conf (bytes "none"))

-- `initEdgeStore`
unfoldable pub init_edge_store : Flags → Result Stack
init_edge_store flags =
    let endpoints =
      ittt (cloud_front_ro flags.origin_endpoint) (cloud_front_ro flags.origin_endpoint_fallback) in
    if not (str_eq flags.origin_endpoint_fallback []) && not (str_eq flags.origin_endpoint [])
    then ok (if has_s3 flags then cloud_front_rw endpoints s3_store else endpoints)
    else if has_s3 flags
    then ok s3_store
    else err (error_text "this configuration does not include a valid upstream source")

-- `initDBStore`
unfoldable pub init_db_store : Flags → Stack → Stack
init_db_store flags s = if flags.use_db then db_backed s flags.db_conn false else s

abbrev pub with_db : Flags → Result Stack → Result Stack
with_db flags (ok s) = ok (init_db_store flags s)
with_db flags (err e) = err e

abbrev pub upstream_or_edge : Flags → Result (Option Stack) → Result Stack
upstream_or_edge flags (ok (some s)) = ok s
upstream_or_edge flags (ok none) = init_edge_store flags
upstream_or_edge flags (err e) = err e

-- `initStores`
unfoldable pub init_stores : Flags → Result Stack
unfolding init_upstream_store init_edge_store init_db_store
init_stores flags = with_db flags (upstream_or_edge flags (init_upstream_store flags))

-- `cacheMangerToGcache[cacheManager]`, whose zero value is `SIMPLE`
abbrev pub cache_manger_to_gcache : Str → Strategy
cache_manger_to_gcache manager =
    if str_eq manager (bytes "lfu")
    then lfu
    else if str_eq manager (bytes "arc")
    then arc
    else if str_eq manager (bytes "lru")
    then lru
    else simple

-- The connection to the local database.
abbrev pub local_db : Str
local_db = bytes "reflector:reflector@tcp(localhost:3306)/reflector"

abbrev pub negated : ℕ → ℤ
negated zero = pos 0
negated (suc n) = negsuc n

module _ (parse_size : Str → Result ℕ) (max_blob_size : ℕ) where
  -- `int(float64(diskCacheMaxSize) / float64(stream.MaxBlobSize))`
  abbrev pub real_cache_size : ℤ → ℤ
  real_cache_size (pos n) = pos (n / max_blob_size)
  real_cache_size (negsuc n) = negated (suc n / max_blob_size)

  -- The store of the cached blobs.
  abbrev pub cache_store : CacheParams → Stack
  cache_store p =
      if str_eq p.manager (bytes "localdb")
      then db_backed (disk p.path 2) local_db true
      else gcache (bytes "nvme") (disk p.path 2) (real_cache_size p.size)
          (cache_manger_to_gcache p.manager)

  abbrev pub disk_layer : Result CacheParams → Stack → Result Stack
  disk_layer (err e) s = err e
  disk_layer (ok p) s =
      if equals p.size 0 then ok s else ok (caching (bytes "reflector") s (cache_store p))

  -- `initDiskStore`
  unfoldable pub init_disk_store : Stack → Str → Result Stack
  unfolding disk_cache_params
  init_disk_store s params = disk_layer (disk_cache_params parse_size params) s

  abbrev pub mem_layer : ℕ → Stack → Stack
  mem_layer size s =
      if ltb 0 size
      then caching (bytes "reflector") s (gcache (bytes "mem") mem (pos size) lru)
      else s

  abbrev pub then_stack : Result Stack → (Stack → Result Stack) → Result Stack
  then_stack (ok s) f = f s
  then_stack (err e) f = err e

  -- `initCaches`
  unfoldable pub init_caches : Flags → Stack → Result Stack
  unfolding init_disk_store
  init_caches flags s = then_stack (init_disk_store s flags.disk_cache) λ disk_stack.
      then_stack (init_disk_store disk_stack flags.secondary_disk_cache)
        λ final. ok (mem_layer flags.mem_cache final)

  -- The stores of the servers: those of the reflector server with whether its blocklist is on, and that
  -- of the peer server, the HTTP/3 server and the HTTP server.
  pub record Servers : Type 0 where
    pub reflector : Option (Stack × Stack × Bool)
    pub peer : Stack
    pub http3 : Stack
    pub http : Stack

  abbrev pub servers_over : Flags → Stack → Result Stack → Result Servers
  servers_over flags underlying (err e) = err e
  servers_over flags underlying (ok outer) = ok (record {
    reflector =
        if flags.disable_uploads
        then none
        else some (underlying, outer, not flags.disable_blocklist);
    peer = outer;
    http3 = outer;
    http = outer;
  })

  abbrev pub with_stores : Flags → Result Stack → Result Servers
  with_stores flags (err e) = err e
  with_stores flags (ok underlying) = servers_over flags underlying (init_caches flags underlying)

  -- `reflectorCmd`
  unfoldable pub reflector_cmd : Flags → Result Servers
  unfolding init_stores init_caches
  reflector_cmd flags = with_stores flags (init_stores flags)
