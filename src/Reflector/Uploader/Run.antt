-- ===== src/Reflector/Uploader/Run.antt =====
-- reflector/uploader.go: `Upload`, as the steps of its loop over the paths and of its workers, which
-- may come in any order.
use reflector_go.Store.{Blob, BlobStore}
use reflector_go.Reflector.Uploader
use reflector_go.Reflector.Uploader.{Summary, World, counted, base}
use reflector_go.Errors.{Result, ok, err}
use reflector_go.Prelude.Dict.{Dict}
use reflector_go.Db.Lookup.{truth_at}
use reflector_go.Prelude.{
  List, ℕ, Bool, Str, not, [], if◌then◌else◌, ◌≡◌, ◌∷◌, map, length, false, true, ◌<◌, ◌++◌, suc,
}

module _ (store : BlobStore) (digest : List ℕ → List ℕ) (is_valid_json : Blob → Bool) (workers : ℕ)
    (delete_blobs_after_upload : Bool) where
  -- The paths not yet sent, those that a worker has, the counts, and whether the stopper was stopped.
  pub record Run : Type 0 where
    pub exists : Dict Bool
    pub pending : List Str
    pub in_flight : List Str
    pub count : Summary
    pub world : World store digest is_valid_json
    pub stopped : Bool

  -- The loop passes over a path whose name `exists` has.
  abbrev pub is_new : Dict Bool → Str → Bool
  is_new exists path = not (truth_at (base path) exists)

  -- A worker's work on a path, with what it counts.
  abbrev pub worked : Str → Run → Run
  worked path r =
      let (i, w) =
        Uploader.work store digest is_valid_json delete_blobs_after_upload path r.world in
      record r { count = counted i r.count; world = w }

  abbrev pub worked_uncounted : Str → Run → Run
  worked_uncounted path r =
      let (i, w) =
        Uploader.work store digest is_valid_json delete_blobs_after_upload path r.world in
      record r { world = w }

  pub data Step : Run → Run → Type 0 where
    skip :
        (r : Run) (path : Str) (paths : List Str)
        → r.pending ≡ path ∷ paths
        → is_new r.exists path ≡ false
        → Step r (record r { pending = paths })
    send :
        (r : Run) (path : Str) (paths : List Str)
        → r.pending ≡ path ∷ paths
        → is_new r.exists path ≡ true
        → length r.in_flight < workers
        → Step r (record r { pending = paths; in_flight = path ∷ r.in_flight })
    finish :
        (r : Run) (before : List Str) (path : Str) (after : List Str)
        → r.in_flight ≡ before ++ (path ∷ after)
        → Step r (record (worked path r) { in_flight = before ++ after })
    -- `inc` gives up when the stopper was stopped, and so does `counter`.
    finish_uncounted :
        (r : Run) (before : List Str) (path : Str) (after : List Str)
        → r.in_flight ≡ before ++ (path ∷ after)
        → r.stopped ≡ true
        → Step r (record (worked_uncounted path r) { in_flight = before ++ after })
    stop : (r : Run) → r.stopped ≡ false → Step r (record r { stopped = true })
    break_off :
        (r : Run) (path : Str) (paths : List Str)
        → r.pending ≡ path ∷ paths
        → is_new r.exists path ≡ true
        → r.stopped ≡ true
        → Step r (record r { pending = [] })

  -- So many steps one after the other.
  pub data Reach : ℕ → Run → Run → Type 0 where
    here : (r : Run) → Reach 0 r r
    step_then : (n : ℕ) (r s t : Run) → Step r s → Reach n s t → Reach (suc n) r t

  -- What `Upload` has set up before its loop; `exists` is empty where the check is skipped.
  abbrev pub started : List Str → Dict Bool → World store digest is_valid_json → Run
  started paths exists w = record {
    exists = exists;
    pending = paths;
    in_flight = [];
    count = record {
      total = length paths;
      already_stored = length exists;
      sds = 0;
      blobs = 0;
      errors = 0;
    };
    world = w;
    stopped = false;
  }

  abbrev pub with_answer :
      List Str → World store digest is_valid_json → Result (Dict Bool) × store.State → Result Run
  with_answer paths w (ok exists, s) = ok (started paths exists (record w { store_state = s }))
  with_answer paths w (err e, s) = err e

  -- The part of `Upload` before its loop, on the paths that `getPaths` found.
  unfoldable pub start :
      Bool
      → (List Str → store.State → Result (Dict Bool) × store.State)
      → List Str
      → World store digest is_valid_json
      → Result Run
  start skip_exists_check exists_check paths w =
      if skip_exists_check
      then ok (started paths [] w)
      else with_answer paths w (exists_check (map base paths) w.store_state)
