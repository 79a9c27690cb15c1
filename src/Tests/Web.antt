-- ===== src/Tests/Web.antt =====
-- HTTP: a client, a server and a memory store, whose traces are sent as their first origin.
use reflector_go.Http.{request_lost, body_cut}
use reflector_go.Http.Server
use reflector_go.Http.Server.{HttpServer}
use reflector_go.Http.Contract.{Upstream, upstream_store}
use reflector_go.Http3
use reflector_go.Http3.Contract.Whole as Quic
use reflector_go.Http3.Contract.Whole.{whole}
use reflector_go.Store.{Blob, BlobStore}
use reflector_go.Store.Http as Client
use reflector_go.Store.Gcache.{Cache}
use reflector_go.Store.Mem
use reflector_go.Store.Mem.{MemStore, mem_store, mem_spec}
use reflector_go.Shared.{BlobTrace}
use reflector_go.Errors.{Error, Result, ok, err, external, blob_not_found}
use reflector_go.Prelude.Dict.{lookup}
use reflector_go.Prelude.{
  List, Str, bytes, str_eq, ◌≡◌, [], Bool, ◌∷◌, false, refl, ◌||◌, Option, if◌then◌else◌, none,
}

abbrev OwnHash : Str → Blob → Type 0
OwnHash h b = b ≡ h

-- A cache that remembers all that was set.
abbrev known : Str → List Str → Bool
known h [] = false
known h (k ∷ keys) = str_eq k h || known h keys

abbrev list_cache : Cache
list_cache = record {
  State = List Str;
  has = known;
  get = λ h s. (known h s, s);
  set = λ h s. ([], h ∷ s);
  remove = λ h s. ([], s);
}

abbrev origin_names : BlobTrace → Result Str
origin_names [] = ok []
origin_names (name ∷ names) = ok name

abbrev one_origin : Str → Result BlobTrace
one_origin via = ok (via ∷ [])

abbrev no_text : Error → Str
no_text e = []

abbrev web : Upstream mem_store list_cache origin_names no_text
web = record {
  server = record {
    store_state = record { blobs = (bytes "x", bytes "x") ∷ [] };
    misses_cache = [];
  };
  deliveries = request_lost 7 ∷ body_cut 8 ∷ [];
}

abbrev client : BlobStore
client = upstream_store mem_store list_cache origin_names no_text one_origin

-- A lost request, a body that breaks off, and a response; then a hash that is missing is remembered.
web_run :
    let (r1, t1, n1) = client.get (bytes "x") web in
    let (r2, t2, n2) = client.get (bytes "x") n1 in
    let (r3, t3, n3) = client.get (bytes "x") n2 in
    let (r4, t4, n4) = client.get (bytes "y") n3 in
    (r1 ≡ err (external 7))
    × (r2 ≡ err (external 8))
    × (r3 ≡ ok (bytes "x"))
    × (t3 ≡ bytes "mem" ∷ bytes "http" ∷ [])
    × (r4 ≡ err blob_not_found)
    × (n4.server.misses_cache ≡ bytes "y" ∷ [])
unfolding Client.get Server.handle_get_blob Mem.get lookup str_eq
web_run = (refl, refl, refl, refl, refl, refl)

abbrev yes_or_no : Bool → Result Blob
yes_or_no b = ok (if b then bytes "1" else bytes "0")

abbrev no_fault :
    Quic.Upstream mem_store origin_names no_text yes_or_no (mem_spec OwnHash) → Option Error
no_fault n = none

abbrev never : Error → Bool
never e = false

abbrev quic : BlobStore
quic = whole mem_store origin_names no_text yes_or_no (mem_spec OwnHash) one_origin no_fault never

-- A miss is not noted.
quic_run :
    let p0 : quic.State = record {
      net = record {
        server = record { blobs = (bytes "x", bytes "x") ∷ [] };
        deliveries = [];
        now = 9;
      };
      not_found_cache = [];
    } in
    let (r1, t1, p1) = quic.get (bytes "x") p0 in
    let (r2, t2, p2) = quic.get (bytes "y") p1 in
    (r1 ≡ ok (bytes "x"))
    × (t1 ≡ bytes "mem" ∷ bytes "http3" ∷ [])
    × (r2 ≡ err blob_not_found)
    × (p2.not_found_cache ≡ [])
unfolding Http3.get Http3.handle_get_blob Http3.parse_bool Mem.get lookup str_eq
quic_run = (refl, refl, refl, refl)
