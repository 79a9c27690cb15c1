-- ===== src/Store/Mem.antt =====
-- store/memory.go: `MemStore`. Its mutex makes each call one step; Go's `map` is a `Dict`.
use reflector_go.Prelude.{
  ◌≡◌, refl, inl, Option, none, some, [], arith, Str, bytes, is_some, Bool, Bool-cases, str_eq,
  str_eq_iff, subst, inr,
}
use reflector_go.Prelude.Dict
use reflector_go.Prelude.Dict.{Dict, lookup, lookup-insert, lookup-erase}
use reflector_go.Errors.{Result, ok, err, blob_not_found, Done}
use reflector_go.Shared.{BlobTrace, new_blob_trace}
use reflector_go.Store.{Blob, BlobStore, Spec, Implements, Deletes, IsRead, IsWrite}

pub record MemStore : Type 0 where
  pub blobs : Dict Blob

abbrev pub new_mem_store : MemStore
new_mem_store = record { blobs = [] }

abbrev name_mem : Str
name_mem = bytes "mem"

unfoldable pub has : Str → MemStore → Result Bool × MemStore
unfolding lookup
has hash m = (ok (is_some (lookup hash m.blobs)), m)

abbrev found : Option Blob → Result Blob
found none = err blob_not_found
found (some blob) = ok blob

unfoldable pub get : Str → MemStore → Result Blob × BlobTrace × MemStore
get hash m = (found (lookup hash m.blobs), new_blob_trace name_mem, m)

unfoldable pub put : Str → Blob → MemStore → Done × MemStore
put hash blob m = (ok tt, record { blobs = Dict.insert hash blob m.blobs })

unfoldable pub put_sd : Str → Blob → MemStore → Done × MemStore
unfolding put
put_sd hash blob = put hash blob

unfoldable pub delete : Str → MemStore → Done × MemStore
delete hash m = (ok tt, record { blobs = Dict.erase hash m.blobs })

-- `Shutdown` does nothing.
abbrev pub mem_store : BlobStore
mem_store = record {
  State = MemStore;
  name = name_mem;
  has = has;
  get = get;
  put = put;
  put_sd = put_sd;
  delete = delete;
  shutdown = λ m. m;
}

-- The map of the blobs, where each blob fits its hash, for any relation `Fits` between the two.
abbrev pub mem_spec : (Str → Blob → Type 0) → Spec mem_store
mem_spec Fits = record {
  IsValid = λ m. (h : Str) (b : Blob) → lookup h m.blobs ≡ some b → Fits h b;
  Fits = Fits;
  view = λ m h. lookup h m.blobs;
}

found_ok : (o : Option Blob) (b : Blob) → found o ≡ ok b → o ≡ some b
found_ok none b e = cc
found_ok (some c) b e = ground arith

found_missing : (o : Option Blob) → found o ≡ err blob_not_found → o ≡ none
found_missing none e = refl
found_missing (some c) e = cc

module _ (Fits : Str → Blob → Type 0) where
  idle : (m : MemStore) → (mem_spec Fits).IsValid m → IsRead (mem_spec Fits) m m
  idle m v = record { valid = v; same = λ j. refl }

  insert-IsWrite :
      (h : Str) (b : Blob) (m : MemStore)
      → Fits h b
      → (mem_spec Fits).IsValid m
      → IsWrite (mem_spec Fits) h (some b) m (ok tt) (record { blobs = Dict.insert h b m.blobs })
  insert-IsWrite h b m f v = record {
    valid = λ j c. elim (Bool-cases (str_eq h j)) [
      | inl same ↦ λ e.
          let k : h ≡ j = (str_eq_iff h j).0 same in
          let d : b ≡ c = ground (arith, lookup-insert h j b m.blobs) in
          subst (λ x. Fits j x) d (subst (λ x. Fits x b) k f)
      | inr other ↦ λ e. v j c (ground (arith, lookup-insert h j b m.blobs))
    ];
    others = λ j ne. rw lookup-insert (rw ne);
    written = λ e. Dict.lookup-insert_self h b m.blobs;
    at = inl (Dict.lookup-insert_self h b m.blobs);
  }

  -- The memory store is the map of the blobs that were put and not deleted since: `Has` and `Get`
  -- answer by it, `Put` and `PutSD` change the one entry, and blobs that are put under hashes that
  -- they fit are all that it ever holds.
  pub mem_store-Implements : Implements (mem_spec Fits)
  unfolding has get put put_sd
  mem_store-Implements = record {
    has_ok = λ h s b v e. ground arith;
    has_read = λ h s v. idle s v;
    get_ok = λ h s b v e. found_ok _ b e;
    get_missing = λ h s v e. found_missing _ e;
    get_read = λ h s v. idle s v;
    put_write = insert-IsWrite;
    put_sd_write = insert-IsWrite;
  }

  -- `Delete` removes the blob, if it is there, and nothing else, and what is left still fits.
  pub mem_store-Deletes : Deletes (mem_spec Fits)
  unfolding delete
  mem_store-Deletes = record {
    delete_write = λ h s v. record {
      valid = λ j c e. v j c (ground (arith, lookup-erase h j s.blobs));
      others = λ j ne. rw lookup-erase (rw ne);
      written = λ e. Dict.lookup-erase_self h s.blobs;
      at = inl (Dict.lookup-erase_self h s.blobs);
    };
  }
