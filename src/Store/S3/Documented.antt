-- ===== src/Store/S3/Documented.antt =====
-- What the AWS library documents of the calls that store/s3.go makes.
use reflector_go.Store.S3.{Aws, Blob, request_failure, no_such_key, blob_not_found}
use reflector_go.Prelude.{
  Str, Option, ◌≡◌, none, is_some, true, some, inl, inr, str_eq, false, ◌⊎◌, ◌≢◌,
}

-- What the calls say of the objects in the bucket, and do to them. A write that fails has happened or not.
pub record IsBucket (aws : Aws) (holds : aws.State → Str → Option Blob) : Type 0 where
  pub head_found :
      (h : Str) (s : aws.State) → (aws.head_object h s).0 ≡ none → is_some (holds s h) ≡ true
  pub head_missing :
      (h : Str) (s : aws.State)
      → (aws.head_object h s).0 ≡ some (request_failure 404)
      → holds s h ≡ none
  pub head_same : (h j : Str) (s : aws.State) → holds (aws.head_object h s).1 j ≡ holds s j
  pub downloaded :
      (h : Str) (s : aws.State) (b : Blob) → (aws.download h s).0 ≡ inl b → holds s h ≡ some b
  pub download_missing :
      (h : Str) (s : aws.State) → (aws.download h s).0 ≡ inr no_such_key → holds s h ≡ none
  pub download_same : (h j : Str) (s : aws.State) → holds (aws.download h s).1 j ≡ holds s j
  pub upload_others :
      (h j : Str) (b : Blob) (s : aws.State)
      → str_eq h j ≡ false
      → holds (aws.upload h b s).1 j ≡ holds s j
  pub uploaded :
      (h : Str) (b : Blob) (s : aws.State)
      → (aws.upload h b s).0 ≡ none
      → holds (aws.upload h b s).1 h ≡ some b
  pub upload_at :
      (h : Str) (b : Blob) (s : aws.State)
      → (holds (aws.upload h b s).1 h ≡ some b) ⊎ (holds (aws.upload h b s).1 h ≡ holds s h)
  pub delete_others :
      (h j : Str) (s : aws.State)
      → str_eq h j ≡ false
      → holds (aws.delete_object h s).1 j ≡ holds s j
  pub deleted :
      (h : Str) (s : aws.State)
      → (aws.delete_object h s).0 ≡ none
      → holds (aws.delete_object h s).1 h ≡ none
  pub delete_at :
      (h : Str) (s : aws.State)
      → (holds (aws.delete_object h s).1 h ≡ none) ⊎ (holds (aws.delete_object h s).1 h ≡ holds s h)
  pub session_same : (j : Str) (s : aws.State) → holds (aws.new_session s).1 j ≡ holds s j
  pub session_other : (s : aws.State) → (aws.new_session s).0 ≢ some blob_not_found
