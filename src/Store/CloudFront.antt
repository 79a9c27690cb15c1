-- ===== src/Store/CloudFront.antt =====
-- store/cloudfront_ro.go and store/cloudfront_rw.go: the stores that read from a CDN. The requests of the
-- CDN are parameters, with what they may change. `hash[:8]` in the logs, which panics for a shorter
-- hash, is left out, and so is the status in the text of an error.
use reflector_go.Http
use reflector_go.Http.{Response}
use reflector_go.Store.{Blob, BlobStore}
use reflector_go.Store.Ittt
use reflector_go.Store.Ittt.{ItttStore, ittt_store}
use reflector_go.Shared.{BlobTrace, new_blob_trace, stack}
use reflector_go.Errors.{Error, Result, ok, err, error_text, blob_not_found, not_implemented, Done}
use reflector_go.Prelude.{Bool, Str, if◌then◌else◌, ℕ, ◌==◌, false, bytes, true, ◌||◌}

abbrev pub name_cloud_front_ro : Str
name_cloud_front_ro = bytes "cloudfront_ro"

abbrev pub unexpected_status : Error
unexpected_status = error_text "unexpected status"

abbrev pub is_missing : ℕ → Bool
is_missing status = status == Http.status_not_found || status == Http.status_forbidden

-- What `Has` makes of a response.
unfoldable pub has_answer : Result Response → Result Bool
has_answer (err e) = err e
has_answer (ok res) =
    if is_missing res.status
    then ok false
    else if res.status == Http.status_ok
    then ok true
    else err unexpected_status

-- What `Get` makes of a response.
unfoldable pub get_answer : Result Response → Result Blob
get_answer (err e) = err e
get_answer (ok res) =
    if is_missing res.status
    then err blob_not_found
    else if res.status == Http.status_ok
    then res.body
    else err unexpected_status

module _ (Net : Type 0) (head_request get_request : Str → Net → Result Response × Net) where
  -- `CloudFrontROStore.Has`
  unfoldable pub has : Str → Net → Result Bool × Net
  unfolding has_answer
  has hash n = let (r, n') = head_request hash n in (has_answer r, n')

  -- `CloudFrontROStore.Get`
  unfoldable pub get : Str → Net → Result Blob × BlobTrace × Net
  unfolding get_answer
  get hash n =
      let (r, n') = get_request hash n in (get_answer r, new_blob_trace name_cloud_front_ro, n')

  abbrev pub cloud_front_ro_store : BlobStore
  cloud_front_ro_store = record {
    State = Net;
    name = name_cloud_front_ro;
    has = has;
    get = get;
    put = λ hash blob n. (err not_implemented, n);
    put_sd = λ hash blob n. (err not_implemented, n);
    delete = λ hash n. (err not_implemented, n);
    shutdown = λ n. n;
  }

abbrev pub name_cloud_front_rw : Str
name_cloud_front_rw = bytes "cloudfront_rw"

-- `CloudFrontRWStore`, over the two stores of its `ITTTStore` and the store that it writes to.
module _ (this that s3 : BlobStore) where
  pub record CloudFrontRwStore : Type 0 where
    pub cf : ItttStore this that
    pub s3_state : s3.State

  unfoldable pub rw_has : Str → CloudFrontRwStore → Result Bool × CloudFrontRwStore
  rw_has hash c = let (r, i) = Ittt.has this that hash c.cf in (r, record c { cf = i })

  unfoldable pub rw_get : Str → CloudFrontRwStore → Result Blob × BlobTrace × CloudFrontRwStore
  rw_get hash c =
      let (r, trace, i) = Ittt.get this that hash c.cf in
      (r, stack trace name_cloud_front_rw, record c { cf = i })

  unfoldable pub rw_put : Str → Blob → CloudFrontRwStore → Done × CloudFrontRwStore
  rw_put hash blob c = let (r, s) = s3.put hash blob c.s3_state in (r, record c { s3_state = s })

  unfoldable pub rw_put_sd : Str → Blob → CloudFrontRwStore → Done × CloudFrontRwStore
  rw_put_sd hash blob c =
      let (r, s) = s3.put_sd hash blob c.s3_state in (r, record c { s3_state = s })

  unfoldable pub rw_delete : Str → CloudFrontRwStore → Done × CloudFrontRwStore
  rw_delete hash c = let (r, s) = s3.delete hash c.s3_state in (r, record c { s3_state = s })

  abbrev pub cloud_front_rw_store : BlobStore
  cloud_front_rw_store = record {
    State = CloudFrontRwStore;
    name = name_cloud_front_rw;
    has = rw_has;
    get = rw_get;
    put = rw_put;
    put_sd = rw_put_sd;
    delete = rw_delete;
    shutdown = λ c. record c { s3_state = s3.shutdown c.s3_state };
  }
