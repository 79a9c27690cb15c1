-- ===== src/Reflector/Uploader.antt =====
-- reflector/uploader.go: `Uploader`, with the work on one file. The store is any `BlobStore`, as the
-- code says it could be; `exists_check` is `HasBlobs` of the database, asked without touching. What the system
-- answers to a read or a removal, an error or success, is an input. SHA-384 and the test for JSON are
-- parameters.
pub mod Run
pub mod Counts
pub mod Files
pub mod Uploaded
use reflector_go.Store.{Blob, BlobStore}
use reflector_go.Reflector.Hash.{blob_hash}
use reflector_go.Errors.{Error, Result, ok, err, error_text, external, Done}
use reflector_go.Prelude.Dict
use reflector_go.Prelude.Dict.{Dict, lookup}
use reflector_go.Prelude.{
  List, Str, suc, ℕ, [], ◌∷◌, Bool, Option, if◌then◌else◌, ◌==◌, str_eq, some, none, ◌++◌,
}

-- `increment`
pub data Increment : Type 0 where
  sd_inc blob_inc err_inc : Increment

-- `Summary`; `sd`, `blob` and `err` are its counters.
pub record Summary : Type 0 where
  pub total : ℕ
  pub already_stored : ℕ
  pub sds : ℕ
  pub blobs : ℕ
  pub errors : ℕ

-- The switch of `counter`.
abbrev pub counted : Increment → Summary → Summary
counted sd_inc c = record c { sds = suc c.sds }
counted blob_inc c = record c { blobs = suc c.blobs }
counted err_inc c = record c { errors = suc c.errors }

-- `path.Base`, of a path without trailing slashes: the part behind the last slash.
abbrev pub slash : ℕ
slash = 47

unfoldable pub base_from : Str → Str → Str
base_from [] name = name
base_from (c ∷ path) name = base_from path (if c == slash then [] else name ++ (c ∷ []))

abbrev pub base : Str → Str
base path = base_from path []

module _ (store : BlobStore) (digest : List ℕ → List ℕ) (is_valid_json : Blob → Bool) where
  -- The store and the files. `answers` are those of the system to the calls to come, where `none`
  -- or no entry is success.
  pub record World : Type 0 where
    pub store_state : store.State
    pub files : Dict Blob
    pub answers : List (Option Error)

  abbrev next_answer : List (Option Error) → Option Error × List (Option Error)
  next_answer [] = (none, [])
  next_answer (a ∷ rest) = (a, rest)

  abbrev pub found : Option Blob → Result Blob
  found none = err (external 2)
  found (some blob) = ok blob

  abbrev pub read_answer : Option Error → Option Blob → Result Blob
  read_answer none o = found o
  read_answer (some e) o = err e

  -- `ioutil.ReadFile(filepath)`
  unfoldable pub read_file : Str → World → Result Blob × World
  unfolding lookup
  read_file path w =
      let (a, rest) = next_answer w.answers in
      (read_answer a (lookup path w.files), record w { answers = rest })

  abbrev pub removed : Option Error → Str → Dict Blob → Dict Blob
  removed none path files = Dict.erase path files
  removed (some e) path files = files

  -- `os.Remove(filepath)`, whose error is only logged
  unfoldable pub remove : Str → World → World
  remove path w =
      let (a, rest) = next_answer w.answers in
      record w { files = removed a path w.files; answers = rest }

  abbrev pub done : Increment → Done × store.State → World → Result Increment × World
  done i (ok u, s) w = (ok i, record w { store_state = s })
  done i (err e, s) w = (err e, record w { store_state = s })

  -- The part of `uploadBlob` behind the read.
  unfoldable pub upload_bytes : Str → Blob → World → Result Increment × World
  unfolding blob_hash base_from
  upload_bytes path blob w =
      let hash = blob_hash digest blob in
      if str_eq hash (base path)
      then (if is_valid_json blob
          then done sd_inc (store.put_sd hash blob w.store_state) w
          else done blob_inc (store.put hash blob w.store_state) w)
      else (err (error_text "file name does not match hash"), w)

  abbrev pub upload_read : Str → Result Blob × World → Result Increment × World
  upload_read path (ok blob, w) = upload_bytes path blob w
  upload_read path (err e, w) = (err e, w)

  -- `uploadBlob`: what it counts, or its error, for which it counts `errInc`.
  unfoldable pub upload_blob : Str → World → Result Increment × World
  unfolding read_file upload_bytes
  upload_blob path w = upload_read path (read_file path w)

  abbrev pub after_upload : Bool → Str → Result Increment × World → Increment × World
  after_upload delete path (ok i, w) = (i, if delete then remove path w else w)
  after_upload delete path (err e, w) = (err_inc, w)

  -- What `worker` does with a path.
  unfoldable pub work : Bool → Str → World → Increment × World
  unfolding upload_blob remove
  work delete_blobs_after_upload path w =
      after_upload delete_blobs_after_upload path (upload_blob path w)
