-- ===== src/Reflector/Uploader/Counts.antt =====
-- The counts of an upload, and its end.
use reflector_go.Store.{Blob, BlobStore}
use reflector_go.Reflector.Uploader.{Summary}
use reflector_go.Reflector.Uploader.Run
use reflector_go.Prelude.Dict.{Dict}
use reflector_go.Prelude.{List, ℕ, ◌≡◌, ◌+◌, Bool, length, Str, keep_if, ◌*◌, [], if◌then◌else◌}

-- All that was counted.
abbrev pub sum : Summary → ℕ
sum c = c.sds + c.blobs + c.errors

module _ (store : BlobStore) (digest : List ℕ → List ℕ) (is_valid_json : Blob → Bool) (workers : ℕ)
    (delete : Bool) where
  abbrev Upload : Type 0
  Upload = Run.Run store digest is_valid_json workers delete

  abbrev new_paths : Dict Bool → List Str → ℕ
  new_paths exists paths =
      length (keep_if (Run.is_new store digest is_valid_json workers delete exists) paths)

  abbrev accounted : Upload → ℕ
  accounted r = sum r.count + length r.in_flight + new_paths r.exists r.pending

  abbrev pub left : Upload → ℕ
  left r = 2 * length r.pending + length r.in_flight + (if r.stopped then 0 else 1)

  abbrev pub IsFinished : Upload → Type 0
  IsFinished r = (r.pending ≡ []) × (r.in_flight ≡ [])
