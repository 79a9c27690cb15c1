-- ===== src/Store.antt =====
-- store/store.go: the interface of the blob stores. A store's own state is passed through each
-- call. What a caller sees of a store is a map from hashes to blobs (`Spec`, `Implements`).
pub mod Mem
pub mod Noop
pub mod SingleFlight
pub mod Caching
pub mod Ittt
pub mod DbBacked
pub mod Gcache
pub mod Disk
pub mod Http
pub mod S3
pub mod CloudFront
use reflector_go.Prelude.{
  ℕ, ◌≡◌, ◌⊎◌, Bool, true, false, Option, none, some, List, Str, str_eq, is_some, refl,
}
use reflector_go.Errors.{Error, Result, ok, err, blob_not_found, Done}
use reflector_go.Shared.{BlobTrace}

-- `stream.Blob`
abbrev pub Blob : Type 0
Blob = List ℕ

-- `BlobStore`
pub record BlobStore : Type 1 where
  pub State : Type 0
  pub name : Str
  pub has : Str → State → Result Bool × State
  pub get : Str → State → Result Blob × BlobTrace × State
  pub put : Str → Blob → State → Done × State
  pub put_sd : Str → Blob → State → Done × State
  pub delete : Str → State → Done × State
  pub shutdown : State → State

-- What a store stands for: the states that it can be in, the blobs that may be put under a hash,
-- and the blob that it holds under each hash.
pub record Spec (B : BlobStore) : Type 1 where
  pub IsValid : B.State → Type 0
  pub Fits : Str → Blob → Type 0
  pub view : B.State → Str → Option Blob

pub not_some : (held : Option Blob) → is_some held ≡ false → held ≡ none
not_some none e = refl
not_some (some b) e = cc

module _ {B : BlobStore} (A : Spec B) where
  -- A call that must not change what the store holds.
  pub record IsRead (s t : B.State) : Type 0 where
    pub valid : A.IsValid t
    pub same : (j : Str) → A.view t j ≡ A.view s j

  -- A call that sets one entry to `new`: surely if it succeeds, perhaps if it fails.
  pub record IsWrite (h : Str) (new : Option Blob) (s : B.State) (r : Done) (t : B.State)
      : Type 0 where
    pub valid : A.IsValid t
    pub others : (j : Str) → str_eq h j ≡ false → A.view t j ≡ A.view s j
    pub written : r ≡ ok tt → A.view t h ≡ new
    pub at : (A.view t h ≡ new) ⊎ (A.view t h ≡ A.view s h)

  -- The contract of `Has`, `Get`, `Put` and `PutSD`.
  pub record Implements : Type 0 where
    pub has_ok :
        (h : Str) (s : B.State) (b : Bool)
        → A.IsValid s
        → (B.has h s).0 ≡ ok b
        → b ≡ is_some (A.view s h)
    pub has_read : (h : Str) (s : B.State) → A.IsValid s → IsRead s (B.has h s).1
    pub get_ok :
        (h : Str) (s : B.State) (b : Blob)
        → A.IsValid s
        → (B.get h s).0 ≡ ok b
        → A.view s h ≡ some b
    pub get_missing :
        (h : Str) (s : B.State)
        → A.IsValid s
        → (B.get h s).0 ≡ err blob_not_found
        → A.view s h ≡ none
    pub get_read : (h : Str) (s : B.State) → A.IsValid s → IsRead s (B.get h s).2
    pub put_write :
        (h : Str) (b : Blob) (s : B.State)
        → A.Fits h b
        → A.IsValid s
        → IsWrite h (some b) s (B.put h b s).0 (B.put h b s).1
    pub put_sd_write :
        (h : Str) (b : Blob) (s : B.State)
        → A.Fits h b
        → A.IsValid s
        → IsWrite h (some b) s (B.put_sd h b s).0 (B.put_sd h b s).1

  -- What `Delete` adds to the contract. (Some stores do not implement it.)
  pub record Deletes : Type 0 where
    pub delete_write :
        (h : Str) (s : B.State) → A.IsValid s → IsWrite h none s (B.delete h s).0 (B.delete h s).1
