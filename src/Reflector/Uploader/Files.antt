-- ===== src/Reflector/Uploader/Files.antt =====
-- The files of an upload that deletes what it has uploaded: none is lost.
use reflector_go.Store.{Blob, BlobStore, Spec, Implements}
use reflector_go.Reflector.Hash.{blob_hash}
use reflector_go.Reflector.Uploader
use reflector_go.Reflector.Uploader.{
  Increment, World, base, done, after_upload, removed, upload_read, found, read_answer,
}
use reflector_go.Reflector.Uploader.Run
use reflector_go.Errors.{Error, Result, ok, err}
use reflector_go.Prelude.Dict
use reflector_go.Prelude.Dict.{lookup, lookup-erase, Dict}
use reflector_go.Prelude.{
  List, ℕ, Bool, Str, ◌≡◌, some, Bool-cases, str_eq, refl, ap, ◌⊎◌, inr, ◌∙◌, inl, str_eq_iff,
  Option, subst, false, none, true,
}
use reflector_go.Reflector.Uploader.Run.{
  Reach, Step, here, skip, send, step_then, finish, finish_uncounted, stop, break_off,
}
use reflector_go.Reflector.Uploader.Uploaded.{read-IsUploaded, IsUploaded, IsStored}

module _ {store : BlobStore} (A : Spec store) (digest : List ℕ → List ℕ)
    (is_valid_json : Blob → Bool) where
  module _ (I : Implements A) (hashed-Fits : (b : Blob) → A.Fits (blob_hash digest b) b) where
    -- The blob of every file of the beginning is still in the file or in the store.
    record IsSafe (w0 w : World store digest is_valid_json) : Type 0 where
      valid : A.IsValid w.store_state
      kept :
          (p : Str) (b : Blob)
          → lookup p w0.files ≡ some b
          → (lookup p w.files ≡ some b) ⊎ IsStored A digest is_valid_json w.store_state (base p)

    module _ (w0 : World store digest is_valid_json) where
      after_upload-IsSafe :
          (path : Str) (w : World store digest is_valid_json)
          (out : Result Increment × World store digest is_valid_json)
          → IsUploaded A digest is_valid_json path w out
          → IsSafe w0 w
          → IsSafe w0 (out.1)
      after_upload-IsSafe path w out u v = record {
        valid = u.valid;
        kept = λ p b e. elim (v.kept p b e) [
          | inl there ↦ inl (ap (lookup p) u.files ∙ there)
          | inr stored ↦ inr (u.keeps (base p) stored)
        ];
      }

      erase-IsSafe :
          (path : Str) (w : World store digest is_valid_json) (answers : List (Option Error))
          → IsStored A digest is_valid_json w.store_state (base path)
          → IsSafe w0 w
          → IsSafe w0 (record w { files = Dict.erase path w.files; answers = answers })
      erase-IsSafe path w answers stored v = record {
        valid = v.valid;
        kept = λ p b e. elim (v.kept p b e) [
          | inr before ↦ inr before
          | inl there ↦ elim (Bool-cases (str_eq path p)) [
            | inl same ↦ inr (
                subst (λ q. IsStored A digest is_valid_json w.store_state (base q))
                  ((str_eq_iff path p).0 same) stored)
            | inr other ↦ inl (lookup-erase path p w.files ∙ rw other there)
          ]
        ];
      }

      removed-IsSafe :
          (a : Option Error) (path : Str) (w : World store digest is_valid_json)
          (rest : List (Option Error))
          → IsStored A digest is_valid_json w.store_state (base path)
          → IsSafe w0 w
          → IsSafe w0 (record w {
            files = removed store digest is_valid_json a path w.files;
            answers = rest;
          })
      removed-IsSafe none path w rest stored v = erase-IsSafe path w rest stored v
      removed-IsSafe (some e) path w rest stored v = record { valid = v.valid; kept = v.kept }

      worked-IsSafe :
          (delete : Bool) (path : Str) (w : World store digest is_valid_json)
          (out : Result Increment × World store digest is_valid_json)
          → IsUploaded A digest is_valid_json path w out
          → IsSafe w0 w
          → IsSafe w0 (after_upload store digest is_valid_json delete path out).1
      unfolding Uploader.remove
      worked-IsSafe delete path w (err e, w') u v = after_upload-IsSafe path w (err e, w') u v
      worked-IsSafe false path w (ok i, w') u v = after_upload-IsSafe path w (ok i, w') u v
      worked-IsSafe true path w (ok i, w') u v =
          removed-IsSafe _ path w' _ (u.stored i refl) (after_upload-IsSafe path w (ok i, w') u v)

      work-IsSafe :
          (delete : Bool) (path : Str) (w : World store digest is_valid_json)
          → IsSafe w0 w
          → IsSafe w0 (Uploader.work store digest is_valid_json delete path w).1
      unfolding Uploader.work Uploader.upload_blob Uploader.read_file
      work-IsSafe delete path w v =
          let w' = (Uploader.read_file store digest is_valid_json path w).1 in
          worked-IsSafe delete path w' _
            (read-IsUploaded A digest is_valid_json I hashed-Fits path _ w' v.valid)
            (record { valid = v.valid; kept = v.kept })

      module _ (workers : ℕ) (delete : Bool) where
        abbrev Upload : Type 0
        Upload = Run.Run store digest is_valid_json workers delete

        Step-IsSafe :
            (r t : Upload)
            → Step store digest is_valid_json workers delete r t
            → IsSafe w0 r.world
            → IsSafe w0 t.world
        Step-IsSafe r _ (skip _ path paths e old) v = v
        Step-IsSafe r _ (send _ path paths e new few) v = v
        Step-IsSafe r _ (finish _ before path after e) v = work-IsSafe delete path r.world v
        Step-IsSafe r _ (finish_uncounted _ before path after e off) v =
            work-IsSafe delete path r.world v
        Step-IsSafe r _ (stop _ on) v = v
        Step-IsSafe r _ (break_off _ path paths e new off) v = v

        Reach-IsSafe :
            (n : ℕ) (r t : Upload)
            → Reach store digest is_valid_json workers delete n r t
            → IsSafe w0 r.world
            → IsSafe w0 t.world
        Reach-IsSafe _ r _ (here _) v = v
        Reach-IsSafe _ r t (step_then n _ s _ step rest) v =
            Reach-IsSafe n s t rest (Step-IsSafe r s step v)

        -- Over a store that keeps its contract and takes every blob under its own hash, an upload loses
        -- no file, in whatever order its steps come, whichever calls fail, and also if it is stopped:
        -- what a file held at the beginning it still holds, or the store holds a blob with the hash
        -- that is the file's name.
        pub upload_keeps_files :
            (paths : List Str) (exists : Dict Bool) (n : ℕ) (r : Upload) (p : Str) (b : Blob)
            → A.IsValid w0.store_state
            → Reach store digest is_valid_json workers delete n
                (Run.started store digest is_valid_json workers delete paths exists w0)
                r
            → lookup p w0.files ≡ some b
            → (lookup p r.world.files ≡ some b)
              ⊎ IsStored A digest is_valid_json r.world.store_state (base p)
        upload_keeps_files paths exists n r p b v steps e =
            (Reach-IsSafe n _ r steps (record { valid = v; kept = λ q c f. inl f })).kept p b e
