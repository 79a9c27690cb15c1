-- ===== src/Store/S3.antt =====
-- store/s3.go: `S3Store`. The calls of the AWS library are parameters, with what they may change, and so is
-- whether a session can be made. `hash[:8]` in the logs, which panics for a shorter hash, is left out.
pub mod Bucket
pub mod Documented
use reflector_go.Http
use reflector_go.Store.{Blob, BlobStore}
use reflector_go.Shared.{BlobTrace, new_blob_trace}
use reflector_go.Errors.{Error, Result, ok, err, error_text, external, blob_not_found, Done}
use reflector_go.Prelude.{
  Bool, Option, Str, if◌then◌else◌, ℕ, ◌⊎◌, true, inl, bytes, some, inr, false, none, ◌==◌,
}

-- An error of AWS, as far as the store tells them apart: the codes of `Download`, or the status of a
-- failed request.
pub data AwsError : Type 0 where
  no_such_bucket no_such_key : AwsError
  request_failure : ℕ → AwsError

-- The calls: `HeadObject`, `Download`, `Upload`, `DeleteObject`, and `session.NewSession`.
pub record Aws : Type 1 where
  pub State : Type 0
  pub head_object : Str → State → Option AwsError × State
  pub download : Str → State → (Blob ⊎ AwsError) × State
  pub upload : Str → Blob → State → Option AwsError × State
  pub delete_object : Str → State → Option AwsError × State
  pub new_session : State → Option Error × State

abbrev pub name_s3 : Str
name_s3 = bytes "s3"

abbrev pub as_error : AwsError → Error
as_error no_such_bucket = error_text "NoSuchBucket"
as_error no_such_key = error_text "NoSuchKey"
as_error (request_failure status) = external status

module _ (aws : Aws) where
  -- `S3Store`; `session` says whether it is made.
  pub record S3Store : Type 0 where
    pub session : Bool
    pub bucket : aws.State

  abbrev pub Act {ℓ} : Type ℓ → Type ℓ
  Act A = S3Store → Result A × S3Store

  abbrev pub set_session : Option Error × aws.State → Result (Unit {0}) × S3Store
  set_session (none, b) = (ok tt, record { session = true; bucket = b })
  set_session (some e, b) = (err e, record { session = false; bucket = b })

  -- `initOnce`
  unfoldable pub init_once : Act (Unit {0})
  init_once s = if s.session then (ok tt, s) else set_session (aws.new_session s.bucket)

  abbrev pub continue {ℓ κ} :
      {A : Type ℓ} {B : Type κ} → Result A × S3Store → Act B → Result B × S3Store
  continue (ok a, s) f = f s
  continue (err e, s) f = (err e, s)

  abbrev pub head_answer : Option AwsError → Result Bool
  head_answer none = ok true
  head_answer (some no_such_bucket) = err (as_error no_such_bucket)
  head_answer (some no_such_key) = err (as_error no_such_key)
  head_answer (some (request_failure status)) =
      if status == Http.status_not_found then ok false else err (external status)

  abbrev pub head : Str → Act Bool
  head hash s =
      let (a, b) = aws.head_object hash s.bucket in (head_answer a, record s { bucket = b })

  -- `Has`
  unfoldable pub has : Str → Act Bool
  unfolding init_once
  has hash s = continue (init_once s) (head hash)

  abbrev pub download_answer : Blob ⊎ AwsError → Result Blob
  download_answer (inl blob) = ok blob
  download_answer (inr no_such_bucket) = err (error_text "bucket does not exist")
  download_answer (inr no_such_key) = err blob_not_found
  download_answer (inr (request_failure status)) = err (external status)

  abbrev pub download : Str → Act Blob
  download hash s =
      let (a, b) = aws.download hash s.bucket in (download_answer a, record s { bucket = b })

  -- `Get`
  unfoldable pub get : Str → S3Store → Result Blob × BlobTrace × S3Store
  unfolding init_once
  get hash s =
      let (r, s') = continue (init_once s) (download hash) in (r, new_blob_trace name_s3, s')

  abbrev pub done : Option AwsError → Done
  done none = ok tt
  done (some e) = err (as_error e)

  abbrev pub upload : Str → Blob → Act (Unit {0})
  upload hash blob s =
      let (a, b) = aws.upload hash blob s.bucket in (done a, record s { bucket = b })

  -- `Put` and `PutSD`
  unfoldable pub put : Str → Blob → Act (Unit {0})
  unfolding init_once
  put hash blob s = continue (init_once s) (upload hash blob)

  abbrev pub delete_object : Str → Act (Unit {0})
  delete_object hash s =
      let (a, b) = aws.delete_object hash s.bucket in (done a, record s { bucket = b })

  -- `Delete`
  unfoldable pub delete : Str → Act (Unit {0})
  unfolding init_once
  delete hash s = continue (init_once s) (delete_object hash)

  abbrev pub s3_store : BlobStore
  s3_store = record {
    State = S3Store;
    name = name_s3;
    has = has;
    get = get;
    put = put;
    put_sd = put;
    delete = delete;
    shutdown = λ s. s;
  }
