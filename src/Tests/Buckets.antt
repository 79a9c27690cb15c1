-- ===== src/Tests/Buckets.antt =====
-- A bucket in memory, whose calls all work.
use reflector_go.Store.S3
use reflector_go.Store.S3.{Aws, AwsError, no_such_key, request_failure, S3Store, s3_store}
use reflector_go.Store.S3.Bucket.{s3_spec, s3_store-Implements}
use reflector_go.Store.CloudFront
use reflector_go.Store.{Blob, Implements, Deletes}
use reflector_go.Store.Ittt
use reflector_go.Store.Mem
use reflector_go.Store.Mem.{MemStore, mem_store}
use reflector_go.Errors.{ok, err, blob_not_found}
use reflector_go.Prelude.Dict
use reflector_go.Prelude.Dict.{Dict, lookup, lookup-insert, lookup-erase}
use reflector_go.Prelude.{
  Option, Str, none, str_eq, ◌∙◌, ◌≡◌, ◌⊎◌, some, [], inl, false, bytes, inr, refl, is_some, arith,
  true, ◌∷◌,
}
use reflector_go.Store.S3.Documented.{IsBucket}

abbrev head_of : Option Blob → Option AwsError
head_of none = some (request_failure 404)
head_of (some b) = none

abbrev object_of : Option Blob → Blob ⊎ AwsError
object_of none = inr no_such_key
object_of (some b) = inl b

abbrev memory : Aws
memory = record {
  State = Dict Blob;
  head_object = λ h s. (head_of (lookup h s), s);
  download = λ h s. (object_of (lookup h s), s);
  upload = λ h b s. (none, Dict.insert h b s);
  delete_object = λ h s. (none, Dict.erase h s);
  new_session = λ s. (none, s);
}

abbrev holds : Dict Blob → Str → Option Blob
holds s h = lookup h s

head_found_lem : (o : Option Blob) → head_of o ≡ none → is_some o ≡ true
head_found_lem none e = cc
head_found_lem (some b) e = refl

head_missing_lem : (o : Option Blob) → head_of o ≡ some (request_failure 404) → o ≡ none
head_missing_lem none e = refl
head_missing_lem (some b) e = cc

downloaded_lem : (o : Option Blob) (b : Blob) → object_of o ≡ inl b → o ≡ some b
downloaded_lem none b e = cc
downloaded_lem (some c) b e = ground arith

missing_lem : (o : Option Blob) → object_of o ≡ inr no_such_key → o ≡ none
missing_lem none e = refl
missing_lem (some c) e = cc

memory-IsBucket : IsBucket memory holds
memory-IsBucket = record {
  head_found = λ h s e. head_found_lem (lookup h s) e;
  head_missing = λ h s e. head_missing_lem (lookup h s) e;
  head_same = λ h j s. refl;
  downloaded = λ h s b e. downloaded_lem (lookup h s) b e;
  download_missing = λ h s e. missing_lem (lookup h s) e;
  download_same = λ h j s. refl;
  upload_others = λ h j b s ne. lookup-insert h j b s ∙ rw ne refl;
  uploaded = λ h b s e. Dict.lookup-insert_self h b s;
  upload_at = λ h b s. inl (Dict.lookup-insert_self h b s);
  delete_others = λ h j s ne. lookup-erase h j s ∙ rw ne refl;
  deleted = λ h s e. Dict.lookup-erase_self h s;
  delete_at = λ h s. inl (Dict.lookup-erase_self h s);
  session_same = λ j s. refl;
  session_other = λ s e. cc;
}

s3_store-Implements_example :
    Implements (s3_spec memory holds memory-IsBucket)
    × Deletes (s3_spec memory holds memory-IsBucket)
s3_store-Implements_example = s3_store-Implements memory holds memory-IsBucket

s3_run :
    let s0 : S3Store memory = record { session = false; bucket = [] } in
    let (r1, s1) = (s3_store memory).put (bytes "aa") (bytes "x") s0 in
    let (r2, t2, s2) = (s3_store memory).get (bytes "aa") s1 in
    let (r3, t3, s3) = (s3_store memory).get (bytes "bb") s2 in
    (r1 ≡ ok tt) × (r2 ≡ ok (bytes "x")) × (r3 ≡ err blob_not_found) × (s3.session ≡ true)
unfolding S3.put S3.get S3.init_once lookup str_eq Dict.insert Dict.erase
s3_run = (refl, refl, refl, refl)

-- Reads go to the first endpoint and then to the second, and writes to the third store.
rw_run :
    let c0 : CloudFront.CloudFrontRwStore mem_store mem_store (s3_store memory) = record {
      cf = record {
        this_state = record { blobs = [] };
        that_state = record { blobs = (bytes "aa", bytes "x") ∷ [] };
      };
      s3_state = record { session = true; bucket = [] };
    } in
    let (r1, t1, c1) =
      (CloudFront.cloud_front_rw_store mem_store mem_store (s3_store memory)).get (bytes "aa") c0 in
    let (r2, c2) =
      (CloudFront.cloud_front_rw_store mem_store mem_store (s3_store memory)).put
        (bytes "bb")
        (bytes "y")
        c1 in
    (r1 ≡ ok (bytes "x"))
    × (t1 ≡ bytes "mem" ∷ bytes "ittt" ∷ bytes "cloudfront_rw" ∷ [])
    × (c2.s3_state.bucket ≡ (bytes "bb", bytes "y") ∷ [])
unfolding CloudFront.rw_get CloudFront.rw_put Ittt.get Mem.get S3.put S3.init_once lookup str_eq
    Dict.insert Dict.erase
rw_run = (refl, refl, refl)
