-- ===== src/Db/Manage.antt =====
-- db/db.go: `Delete`, `Block`, `GetBlocked`, `Count`, `LeastRecentlyAccessedHashes`.
use reflector_go.Db.Tables.{BlobRow, blob_mark_missing, stream_delete, blob_delete, blocked_insert}
use reflector_go.Db.Exec.{Act, pure, ◌>>◌, once, exec, guard}
use reflector_go.Db.Insert.{Sql, need_connection, tracks_blobs}
use reflector_go.Prelude.Dict
use reflector_go.Prelude.Dict.{Dict}
use reflector_go.Prelude.{
  Bool, List, Option, Str, ℕ, if◌then◌else◌, true, ◌∷◌, length, [], some, false, map, keep_if, take,
  leb, none,
}
use reflector_go.Errors.{ok, error_text}

-- `Delete`
unfoldable pub delete : Sql → Str → Act (Unit {0})
unfolding exec blob_mark_missing stream_delete blob_delete
delete s hash =
    if s.soft_delete
    then (do exec (blob_mark_missing hash); pure tt)
    else (do exec (stream_delete hash); exec (blob_delete hash); pure tt)

-- `Block`
unfoldable pub block : Str → Act (Unit {0})
unfolding once blocked_insert
block hash = do once (blocked_insert hash); pure tt

abbrev as_set : List Str → Dict Bool
as_set [] = []
as_set (h ∷ hashes) = Dict.insert h true (as_set hashes)

-- `GetBlocked`
unfoldable pub get_blocked : Act (Dict Bool)
unfolding once
get_blocked = once (λ t. (ok (as_set t.blocked), t))

-- `Count`
unfoldable pub count : Sql → Act ℕ
unfolding once
count s = do
  need_connection s
  once (λ t. (
    ok (length (if s.soft_delete then keep_if (λ (b : BlobRow). b.is_stored) t.blob_ else t.blob_)),
    t,
  ))

-- `order by last_accessed_at`: nulls come first.
abbrev pub is_before : Option ℕ → Option ℕ → Bool
is_before none b = true
is_before (some x) none = false
is_before (some x) (some y) = leb x y

abbrev pub insert_by_access : BlobRow → List BlobRow → List BlobRow
insert_by_access b [] = b ∷ []
insert_by_access b (c ∷ rows) =
    if is_before b.last_accessed_at c.last_accessed_at
    then b ∷ c ∷ rows
    else c ∷ insert_by_access b rows

abbrev pub sort_by_access : List BlobRow → List BlobRow
sort_by_access [] = []
sort_by_access (b ∷ rows) = insert_by_access b (sort_by_access rows)

-- `LeastRecentlyAccessedHashes`
unfoldable pub least_recently_accessed_hashes : Sql → ℕ → Act (List Str)
unfolding once
least_recently_accessed_hashes s max_blobs = do
  need_connection s
  guard (tracks_blobs s) (error_text "blob access tracking is disabled")
  once (λ t. (
    ok (
        map (λ (b : BlobRow). b.hash)
          (take max_blobs (sort_by_access (keep_if (λ (b : BlobRow). b.is_stored) t.blob_)))),
    t,
  ))
