-- ===== src/Tests/Stores.antt =====
-- The stores: stacks of memory stores whose blobs are their own hashes, and a blocked blob.
use reflector_go.Store.Ittt
use reflector_go.Store.Ittt.{ItttStore}
use reflector_go.Store.Ittt.Laws.{IsAnswerOf, IsReadOfBoth, ittt_store-get}
use reflector_go.Store.Caching
use reflector_go.Store.Caching.{CachingStore}
use reflector_go.Store.Caching.Hits.{caching_store-put-get}
use reflector_go.Prelude.{
  bytes, refl, sym, ◌∙◌, true, false, none, ◌∷◌, [], Str, List, ◌≡◌, str_eq, some, arith,
  str_eq_iff,
}
use reflector_go.Errors.{ok, err, not_implemented, Result}
use reflector_go.Store.{Blob, Implements, Deletes}
use reflector_go.Store.Mem
use reflector_go.Store.DbBacked
use reflector_go.Prelude.Dict
use reflector_go.Prelude.Dict.{lookup}
use reflector_go.Db.Exec.{exec_loop}
use reflector_go.Store.Mem.{MemStore, mem_store, mem_spec, mem_store-Implements, mem_store-Deletes}
use reflector_go.Store.SingleFlight.{Group}
use reflector_go.Store.SingleFlight.Laws.{sf_spec, with_single_flight-Deletes}
use reflector_go.Store.Caching.Coherence.{IsCoherent, IsAddressed, caching_spec}
use reflector_go.Store.Caching.Laws.{caching_store-Implements}
use reflector_go.Store.DbBacked.{DbBackedStore, put, block, wants}
use reflector_go.Store.DbBacked.Blocking.{Call, run, put_call, get_call, delete_call, block-wants}
use reflector_go.Db.Tables.{Tables}
use reflector_go.Db.Insert.{Sql, track_access_blobs}
use reflector_go.Db.Streams.{SdBlob}

abbrev OwnHash : Str → Blob → Type 0
OwnHash h b = b ≡ h

abbrev lone_group : Group MemStore
lone_group = record { do_call = λ h f s. f s }

with_single_flight-Deletes_example :
    Deletes (sf_spec mem_store lone_group (λ h f s. refl) (mem_spec OwnHash))
with_single_flight-Deletes_example =
    with_single_flight-Deletes mem_store lone_group (λ h f s. refl) (mem_spec OwnHash)
      (mem_store-Deletes OwnHash)

mems-IsAddressed : IsAddressed (mem_spec OwnHash) (mem_spec OwnHash)
mems-IsAddressed = record {
  one_blob = λ h b b' s f v e. v h b' e ∙ sym f;
  cacheable = λ h b s v e. v h b e;
}

caching_store-Implements_example : Implements (caching_spec (mem_spec OwnHash) (mem_spec OwnHash))
caching_store-Implements_example =
    caching_store-Implements (mem_store-Implements OwnHash) (mem_store-Implements OwnHash)
      mems-IsAddressed

abbrev no_decode : Blob → Result SdBlob
no_decode b = err not_implemented

abbrev sql : Sql
sql = record { connected = true; track_access = track_access_blobs; soft_delete = false }

abbrev no_tables : Tables
no_tables = record {
  blob_ = [];
  stream = [];
  stream_blob = [];
  blocked = [];
  next_blob_id = 1;
  next_stream_id = 1;
  now = 100000;
  reports_updated_id = false;
  answers = [];
}

abbrev start : DbBackedStore mem_store no_decode sql true
start = record { blob_state = record { blobs = [] }; tables = no_tables; blocked = none }

abbrev holding : DbBackedStore mem_store no_decode sql true
holding = (put mem_store no_decode sql true (bytes "aa") (bytes "x") start).1

abbrev calls : List (Call mem_store no_decode sql true)
calls = put_call (bytes "aa") (bytes "x") ∷ get_call (bytes "aa") ∷ delete_call (bytes "aa") ∷ []

block_run : (block mem_store no_decode sql true (bytes "aa") holding).0 ≡ ok tt
unfolding block DbBacked.◌>>=◌ Mem.put exec_loop lookup str_eq Dict.insert Mem.delete put
block_run = refl

block-wants_example :
    (wants mem_store no_decode sql true (bytes "aa") (
      run mem_store no_decode sql true calls
        (block mem_store no_decode sql true (bytes "aa") holding).1)).0
    ≡ ok false
block-wants_example = block-wants mem_store no_decode sql true (bytes "aa") holding calls block_run

abbrev cached : CachingStore mem_store mem_store
cached = record {
  origin_state = record { blobs = (bytes "x", bytes "x") ∷ [] };
  cache_state = record { blobs = (bytes "x", bytes "x") ∷ [] };
}

cached_valid : (mem_spec OwnHash).IsValid cached.cache_state
unfolding lookup
cached_valid h b e = ground (arith, str_eq_iff (bytes "x") h)

cached-IsCoherent : IsCoherent (mem_spec OwnHash) (mem_spec OwnHash) cached
cached-IsCoherent = record {
  origin_valid = cached_valid;
  cache_valid = cached_valid;
  coherent = λ j b e. e;
}

delete_run : (Caching.delete mem_store mem_store (bytes "x") cached).0 ≡ ok tt
unfolding Caching.delete Mem.delete
delete_run = refl

mem_serves :
    (j : Str) (s : MemStore) (x : Blob)
    → (mem_spec OwnHash).IsValid s
    → lookup j s.blobs ≡ some x
    → (mem_store.get j s).0 ≡ ok x
unfolding Mem.get
mem_serves j s x v e = rw e

put_run : (Caching.put mem_store mem_store (bytes "y") (bytes "y") cached).0 ≡ ok tt
unfolding Caching.put Mem.put
put_run = refl

caching_store-put-get_example :
    let c' = (Caching.put mem_store mem_store (bytes "y") (bytes "y") cached).1 in
    ((Caching.get mem_store mem_store (bytes "y") c').0 ≡ ok (bytes "y"))
    × ((Caching.get mem_store mem_store (bytes "y") c').2.origin_state ≡ c'.origin_state)
caching_store-put-get_example =
    caching_store-put-get (mem_spec OwnHash) (mem_spec OwnHash) (mem_store-Implements OwnHash)
      mem_serves (bytes "y") (bytes "y") cached refl cached_valid put_run

-- The first store is empty, and the second has the blob.
abbrev either : ItttStore mem_store mem_store
either = record { this_state = record { blobs = [] }; that_state = cached.cache_state }

nothing_valid : (mem_spec OwnHash).IsValid either.this_state
unfolding lookup
nothing_valid h b e = cc

ittt_store-get_example :
    let out = Ittt.get mem_store mem_store (bytes "x") either in
    IsAnswerOf (mem_spec OwnHash) (mem_spec OwnHash) either (bytes "x") out.0
    × IsReadOfBoth (mem_spec OwnHash) (mem_spec OwnHash) either out.2
ittt_store-get_example =
    ittt_store-get (mem_spec OwnHash) (mem_spec OwnHash) (mem_store-Implements OwnHash)
      (mem_store-Implements OwnHash) (bytes "x") either nothing_valid cached_valid
