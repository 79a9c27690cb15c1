-- ===== src/Reflector/Uploader/Uploaded.antt =====
-- What the upload of one file does to the files and the store.
use reflector_go.Store.{Blob, BlobStore, Spec, Implements, IsWrite}
use reflector_go.Reflector.Hash.{blob_hash}
use reflector_go.Reflector.Uploader
use reflector_go.Reflector.Uploader.{
  Increment, World, base, done, after_upload, removed, upload_read, found, read_answer,
}
use reflector_go.Errors.{Error, Result, ok, err, Done}
use reflector_go.Prelude.{
  List, ℕ, Bool, Str, ◌≡◌, some, Bool-cases, str_eq, refl, ap, inr, sym, ◌∙◌, inl, str_eq_iff,
}

module _ {store : BlobStore} (A : Spec store) (digest : List ℕ → List ℕ)
    (is_valid_json : Blob → Bool) where
  -- The store holds a blob with this hash under it.
  abbrev pub IsStored : store.State → Str → Type 0
  IsStored s h = (c : Blob) × (A.view s h ≡ some c) × (blob_hash digest c ≡ h)

  write-IsStored :
      (h j : Str) (b : Blob) (s t : store.State) (r : Done)
      → IsWrite A h (some b) s r t
      → blob_hash digest b ≡ h
      → IsStored s j
      → IsStored t j
  write-IsStored h j b s t r x e (c, held, f) = elim (Bool-cases (str_eq h j)) [
    | inr other ↦ (c, x.others j other ∙ held, f)
    | inl same ↦
        let k = (str_eq_iff h j).0 same in
        elim x.at [
          | inl new ↦ (b, ap (A.view t) (sym k) ∙ new, e ∙ k)
          | inr old ↦ (c, ap (A.view t) (sym k) ∙ old ∙ ap (A.view s) k ∙ held, f)
        ]
  ]

  -- What the upload of a file does: the files stay, stored blobs stay stored, and success means that
  -- the file's blob is stored.
  pub record IsUploaded (path : Str) (w : World store digest is_valid_json)
      (out : Result Increment × World store digest is_valid_json) : Type 0 where
    pub valid : A.IsValid (out.1.store_state)
    pub keeps : (j : Str) → IsStored w.store_state j → IsStored (out.1.store_state) j
    pub files : out.1.files ≡ w.files
    pub stored : (i : Increment) → out.0 ≡ ok i → IsStored (out.1.store_state) (base path)

  module _ (I : Implements A) (hashed-Fits : (b : Blob) → A.Fits (blob_hash digest b) b) where
    done-IsUploaded :
        (path h : Str) (b : Blob) (i : Increment) (w : World store digest is_valid_json) (r : Done)
        (t : store.State)
        → h ≡ base path
        → blob_hash digest b ≡ h
        → IsWrite A h (some b) w.store_state r t
        → IsUploaded path w (done store digest is_valid_json i (r, t) w)
    done-IsUploaded path h b i w (ok tt) t k e x = record {
      valid = x.valid;
      keeps = λ j. write-IsStored h j b w.store_state t _ x e;
      files = refl;
      stored = λ i' f. (b, ap (A.view t) (sym k) ∙ x.written refl, e ∙ k);
    }
    done-IsUploaded path h b i w (err y) t k e x = record {
      valid = x.valid;
      keeps = λ j. write-IsStored h j b w.store_state t _ x e;
      files = refl;
      stored = λ i' f. cc;
    }

    failed-IsUploaded :
        (path : Str) (w : World store digest is_valid_json) (e : Error)
        → A.IsValid w.store_state
        → IsUploaded path w (err e, w)
    failed-IsUploaded path w e v = record {
      valid = v;
      keeps = λ j x. x;
      files = refl;
      stored = λ i f. cc;
    }

    upload_bytes-IsUploaded :
        (path : Str) (b : Blob) (w : World store digest is_valid_json)
        → A.IsValid w.store_state
        → IsUploaded path w (Uploader.upload_bytes store digest is_valid_json path b w)
    unfolding Uploader.upload_bytes
    upload_bytes-IsUploaded path b w v =
        let h = blob_hash digest b in
        elim (Bool-cases (str_eq h (base path))) [
          | inr other ↦ rw other (failed-IsUploaded path w _ v)
          | inl same ↦ rw same (
              let k = (str_eq_iff h (base path)).0 same in
              elim (Bool-cases (is_valid_json b)) [
                | inl sd ↦ rw sd (
                    done-IsUploaded path h b _ w _ _ k refl
                      (I.put_sd_write h b w.store_state (hashed-Fits b) v))
                | inr content ↦ rw content (
                    done-IsUploaded path h b _ w _ _ k refl
                      (I.put_write h b w.store_state (hashed-Fits b) v))
              ])
        ]

    pub read-IsUploaded :
        (path : Str) (r : Result Blob) (w : World store digest is_valid_json)
        → A.IsValid w.store_state
        → IsUploaded path w (upload_read store digest is_valid_json path (r, w))
    read-IsUploaded path (ok b) w v = upload_bytes-IsUploaded path b w v
    read-IsUploaded path (err e) w v = failed-IsUploaded path w e v
