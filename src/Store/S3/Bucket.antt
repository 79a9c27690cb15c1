-- ===== src/Store/S3/Bucket.antt =====
-- `S3Store` over a bucket that does what the AWS library documents.
use reflector_go.Store.S3
use reflector_go.Store.S3.{
  Aws, AwsError, no_such_bucket, no_such_key, request_failure, S3Store, s3_store, continue,
  set_session, head, download, upload, delete_object, head_answer, download_answer, done,
}
use reflector_go.Store.{Blob, Spec, Implements, IsWrite, Deletes}
use reflector_go.Errors.{Error, Result, err, blob_not_found, ok}
use reflector_go.Prelude.{
  Str, Option, ◌≡◌, Bool-cases, none, inl, ◌≢◌, is_some, some, inr, true, ap, arith, false, ◌⊎◌,
  refl, Bool, ◌==◌, if◌then◌else◌, subst, ◌∙◌,
}
use reflector_go.Store.S3.Documented.{IsBucket}

module _ (aws : Aws) (holds : aws.State → Str → Option Blob) (K : IsBucket aws holds) where
  abbrev pub s3_spec : Spec (s3_store aws)
  s3_spec = record { IsValid = λ s. Unit; Fits = λ h b. Unit; view = λ s h. holds s.bucket h }

  -- What `initOnce` leaves.
  record IsStarted (s : S3Store aws) (out : Result (Unit {0}) × S3Store aws) : Type 0 where
    same : (j : Str) → holds (out.1.bucket) j ≡ holds s.bucket j
    other : out.0 ≢ err blob_not_found

  set_session-IsStarted :
      (s : S3Store aws) (o : Option Error) (b : aws.State)
      → ((j : Str) → holds b j ≡ holds s.bucket j)
      → (o ≢ some blob_not_found)
      → IsStarted s (set_session aws (o, b))
  set_session-IsStarted s none b same other = record { same = same; other = λ e. cc }
  set_session-IsStarted s (some e) b same other = record {
    same = same;
    other = λ f. other (ap some (ground arith));
  }

  IsStarted-if :
      (c : Bool) (s : S3Store aws)
      → IsStarted s (if c then (ok tt, s) else set_session aws (aws.new_session s.bucket))
  IsStarted-if true s = record { same = λ j. refl; other = λ e. cc }
  IsStarted-if false s =
      set_session-IsStarted s _ _ (λ j. K.session_same j s.bucket) (K.session_other s.bucket)

  init_once-IsStarted : (s : S3Store aws) → IsStarted s (S3.init_once aws s)
  unfolding S3.init_once
  init_once-IsStarted s = IsStarted-if s.session s

  -- A call behind `initOnce` that reads.
  record IsReading {A : Type 0} (h : Str) (s : S3Store aws) (out : Result A × S3Store aws)
      (Says : Option Blob → Result A → Type 0) : Type 0 where
    says : Says (holds s.bucket h) (out.0)
    same : (j : Str) → holds (out.1.bucket) j ≡ holds s.bucket j

  continue-IsReading :
      {A : Type 0} (h : Str) (s : S3Store aws) (out : Result (Unit {0}) × S3Store aws)
      (f : S3Store aws → Result A × S3Store aws) (Says : Option Blob → Result A → Type 0)
      → IsStarted s out
      → ((t : S3Store aws) → IsReading h t (f t) Says)
      → ((e : Error) → e ≢ blob_not_found → (o : Option Blob) → Says o (err e))
      → IsReading h s (continue aws out f) Says
  continue-IsReading h s (ok u, t) f Says started reads fails = record {
    says = subst (λ o. Says o (f t).0) (started.same h) (reads t).says;
    same = λ j. (reads t).same j ∙ started.same j;
  }
  continue-IsReading h s (err e, t) f Says started reads fails = record {
    says = fails e (λ x. started.other (ap err x)) _;
    same = started.same;
  }

  abbrev HasSays : Option Blob → Result Bool → Type 0
  HasSays o r = (b : Bool) → r ≡ ok b → b ≡ is_some o

  abbrev GetSays : Option Blob → Result Blob → Type 0
  GetSays o r = ((b : Blob) → r ≡ ok b → o ≡ some b) × (r ≡ err blob_not_found → o ≡ none)

  head_answer-says :
      (held : Option Blob) (a : Option AwsError)
      → (a ≡ none → is_some held ≡ true)
      → (a ≡ some (request_failure 404) → held ≡ none)
      → HasSays held (head_answer aws a)
  head_answer-says held none f g b e = ground (arith, f refl)
  head_answer-says held (some no_such_bucket) f g b e = cc
  head_answer-says held (some no_such_key) f g b e = cc
  head_answer-says held (some (request_failure n)) f g b e = elim (Bool-cases (n == 404)) [
    | inl missing ↦
        let gone : held ≡ none = g (ap (λ k. some (request_failure k)) (ground arith)) in
        rw gone (ground arith)
    | inr other ↦ absurd (ground arith)
  ]

  download_answer-says :
      (held : Option Blob) (a : Blob ⊎ AwsError)
      → ((b : Blob) → a ≡ inl b → held ≡ some b)
      → (a ≡ inr no_such_key → held ≡ none)
      → GetSays held (download_answer aws a)
  download_answer-says held (inl c) f g = (λ b e. f b (ap inl (ground arith)), λ e. cc)
  download_answer-says held (inr no_such_bucket) f g = (λ b e. cc, λ e. cc)
  download_answer-says held (inr no_such_key) f g = (λ b e. cc, λ e. g refl)
  download_answer-says held (inr (request_failure n)) f g = (λ b e. cc, λ e. cc)

  has-IsReading : (h : Str) (s : S3Store aws) → IsReading h s (S3.has aws h s) HasSays
  unfolding S3.has
  has-IsReading h s =
      continue-IsReading h s (S3.init_once aws s) (head aws h) HasSays (init_once-IsStarted s)
        (λ t. record {
          says =
              head_answer-says (holds t.bucket h) (aws.head_object h t.bucket).0
                (K.head_found h t.bucket) (K.head_missing h t.bucket);
          same = λ j. K.head_same h j t.bucket;
        })
        (λ e ne o b f. cc)

  get-IsReading :
      (h : Str) (s : S3Store aws)
      → IsReading h s (continue aws (S3.init_once aws s) (download aws h)) GetSays
  get-IsReading h s =
      continue-IsReading h s (S3.init_once aws s) (download aws h) GetSays (init_once-IsStarted s)
        (λ t. record {
          says =
              download_answer-says (holds t.bucket h) (aws.download h t.bucket).0
                (K.downloaded h t.bucket) (K.download_missing h t.bucket);
          same = λ j. K.download_same h j t.bucket;
        })
        (λ e ne o. (λ b f. cc, λ f. absurd (ne (ground arith))))

  -- A call behind `initOnce` that writes one object.
  continue-IsWrite :
      (h : Str) (new : Option Blob) (s : S3Store aws) (out : Result (Unit {0}) × S3Store aws)
      (f : S3Store aws → Result (Unit {0}) × S3Store aws)
      → IsStarted s out
      → ((t : S3Store aws) → IsWrite s3_spec h new t (f t).0 (f t).1)
      → IsWrite s3_spec h new s (continue aws out f).0 (continue aws out f).1
  continue-IsWrite h new s (ok u, t) f started writes = record {
    valid = tt;
    others = λ j ne. (writes t).others j ne ∙ started.same j;
    written = (writes t).written;
    at = elim (writes t).at [ inl done ↦ inl done | inr old ↦ inr (old ∙ started.same h) ];
  }
  continue-IsWrite h new s (err e, t) f started writes = record {
    valid = tt;
    others = λ j ne. started.same j;
    written = λ x. cc;
    at = inr (started.same h);
  }

  done_ok : (a : Option AwsError) → done aws a ≡ ok tt → a ≡ none
  done_ok none e = refl
  done_ok (some x) e = cc

  put-IsWrite :
      (h : Str) (b : Blob) (s : S3Store aws)
      → IsWrite s3_spec h (some b) s (S3.put aws h b s).0 (S3.put aws h b s).1
  unfolding S3.put
  put-IsWrite h b s =
      continue-IsWrite h (some b) s (S3.init_once aws s) (upload aws h b) (init_once-IsStarted s)
        (λ t. record {
          valid = tt;
          others = λ j ne. K.upload_others h j b t.bucket ne;
          written = λ e. K.uploaded h b t.bucket (done_ok _ e);
          at = K.upload_at h b t.bucket;
        })

  delete-IsWrite :
      (h : Str) (s : S3Store aws)
      → IsWrite s3_spec h none s (S3.delete aws h s).0 (S3.delete aws h s).1
  unfolding S3.delete
  delete-IsWrite h s =
      continue-IsWrite h none s (S3.init_once aws s) (delete_object aws h) (init_once-IsStarted s)
        (λ t. record {
          valid = tt;
          others = λ j ne. K.delete_others h j t.bucket ne;
          written = λ e. K.deleted h t.bucket (done_ok _ e);
          at = K.delete_at h t.bucket;
        })

  -- Over a bucket that does what the AWS library documents, `S3Store` is the map of the objects in the
  -- bucket and keeps the contract of the stores, `Delete` included, whether or not its session is made
  -- and whichever of the library's calls fail.
  pub s3_store-Implements : Implements s3_spec × Deletes s3_spec
  unfolding S3.get
  s3_store-Implements = (
    record {
      has_ok = λ h s b v e. (has-IsReading h s).says b e;
      has_read = λ h s v. record { valid = tt; same = (has-IsReading h s).same };
      get_ok = λ h s b v e. (get-IsReading h s).says.0 b e;
      get_missing = λ h s v e. (get-IsReading h s).says.1 e;
      get_read = λ h s v. record { valid = tt; same = (get-IsReading h s).same };
      put_write = λ h b s f v. put-IsWrite h b s;
      put_sd_write = λ h b s f v. put-IsWrite h b s;
    },
    record { delete_write = λ h s v. delete-IsWrite h s },
  )
