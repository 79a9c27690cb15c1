-- ===== src/Db/Ranges.antt =====
-- db/db.go: `GetHashRange` and `GetStoredHashesInRange`. A bitmap of the dht library is its hex text.
use reflector_go.Order.{str_leb}
use reflector_go.Db.Tables.{BlobRow}
use reflector_go.Db.Exec.{Act, ◌>>◌, once}
use reflector_go.Db.Insert.{Sql, need_connection}
use reflector_go.Errors.{Result, ok, err, external}
use reflector_go.Prelude.{List, Str, map, ◌∷◌, Bool, [], ◌&&◌, if◌then◌else◌, keep_if}

-- `bits.Range`
pub record Range : Type 0 where
  pub start : Str
  pub end : Str

-- `MIN(hash), MAX(hash)` over the rows of a table that is not empty.
unfoldable pub range_of : BlobRow → List BlobRow → Range
range_of b [] = record { start = b.hash; end = b.hash }
range_of b (c ∷ rows) =
    let r = range_of c rows in
    record {
      start = if str_leb b.hash r.start then b.hash else r.start;
      end = if str_leb r.end b.hash then b.hash else r.end;
    }

-- The columns are null for an empty table, which `Scan` refuses.
abbrev pub hash_range : List BlobRow → Result Range
hash_range [] = err (external 101)
hash_range (b ∷ rows) = ok (range_of b rows)

-- `GetHashRange`
unfoldable pub get_hash_range : Sql → Act Range
unfolding once range_of
get_hash_range s = need_connection s >> once (λ t. (hash_range t.blob_, t))

-- `hash >= ? AND hash <= ?`
unfoldable pub in_range : Range → Str → Bool
in_range r h = str_leb r.start h && str_leb h r.end

-- `GetStoredHashesInRange`: the hashes that it sends into its channel.
unfoldable pub get_stored_hashes_in_range : Sql → Range → Act (List Str)
unfolding once in_range
get_stored_hashes_in_range s r =
    need_connection s
    >> once (λ t. (
      ok (
          map (λ (b : BlobRow). b.hash)
            (keep_if (λ (b : BlobRow). in_range r b.hash && b.is_stored) t.blob_)),
      t,
    ))
