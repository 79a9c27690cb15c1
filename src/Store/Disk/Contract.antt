-- ===== src/Store/Disk/Contract.antt =====
-- `DiskStore` on a disk without faults: `Has` and `Get`.
pub mod Writes
pub mod Steps
use reflector_go.Store.{Blob, BlobStore, Spec}
use reflector_go.Store.Disk
use reflector_go.Store.Disk.{
  DiskStore, Fault, Act, pure, ◌>>=◌, call, answered, next_answer, ensure_dir_exists,
  set_initialized, init_once, tmp, renamed, opened, write_at, overlay, then_flush, broken,
  not_exist, disk_store,
}
use reflector_go.Store.Disk.Directory.{
  Files, file, has_dir, make_dir, file-make_dir, has_dir-make_dir,
}
use reflector_go.Reflector.Hash.{blob_hash}
use reflector_go.Errors.{Result, ok, err, blob_not_found}
use reflector_go.Prelude.{
  Bool, [], ℕ, ◌≡◌, if◌then◌else◌, true, refl, Str, List, false, sym, str_eq, Option, some, ◌∙◌,
  none, arith, str_eq_refl,
}

pub call_works {ℓ} :
    {A : Type ℓ} (works : Files → Result A × Files) (breaks : Fault → Files → Files) (d : DiskStore)
    → d.answers ≡ []
    → call works breaks d
      ≡ ((works d.files).0, record d { files = (works d.files).1; answers = [] })
unfolding call
call_works works breaks d e = rw e refl

then_ok {ℓ κ} :
    {A : Type ℓ} {B : Type κ} (m : Act A) (f : A → Act B) (d d' : DiskStore) (a : A)
    → m d ≡ (ok a, d')
    → (m >>= f) d ≡ f a d'
unfolding ◌>>=◌
then_ok m f d d' a e = rw e refl

-- The store with its directories made.
prepare : DiskStore → DiskStore
prepare d = record d {
  files = make_dir tmp (make_dir [] (make_dir [] (make_dir [] d.files)));
  answers = [];
  initialized = true;
}

pub prepared : Bool → DiskStore → DiskStore
prepared true d = d
prepared false d = prepare d

ensure_dir_exists_works :
    (dir : Str) (d : DiskStore)
    → d.answers ≡ []
    → ensure_dir_exists dir d
      ≡ (ok tt, record d { files = make_dir dir (make_dir [] d.files); answers = [] })
unfolding ensure_dir_exists
ensure_dir_exists_works dir d a = call_works _ _ d a

init_once_lem :
    (c : Bool) (d : DiskStore)
    → d.answers ≡ []
    → (if c
        then (ok tt, d)
        else (ensure_dir_exists [] >>= λ _. ensure_dir_exists tmp >>= λ _. set_initialized) d)
      ≡ (ok tt, prepared c d)
unfolding prepared prepare set_initialized
init_once_lem true d a = refl
init_once_lem false d a =
    let d' : DiskStore = record d { files = make_dir [] (make_dir [] d.files); answers = [] } in
    then_ok _ _ d d' tt (ensure_dir_exists_works [] d a)
    ∙ then_ok _ _ d' _ tt (ensure_dir_exists_works tmp d' refl)

file-prepared :
    (c : Bool) (e j : Str) (d : DiskStore) → file e j (prepared c d).files ≡ file e j d.files
unfolding prepared prepare
file-prepared true e j d = refl
file-prepared false e j d = simp file-make_dir

prepared_answers : (c : Bool) (d : DiskStore) → d.answers ≡ [] → (prepared c d).answers ≡ []
unfolding prepared prepare
prepared_answers true d a = a
prepared_answers false d a = refl

module _ (prefix_length : ℕ) (buffered : Blob → ℕ) (digest : List ℕ → List ℕ) where
  abbrev store : BlobStore
  store = disk_store prefix_length buffered digest

  abbrev dir : Str → Str
  dir hash = Disk.dir prefix_length buffered digest hash

  -- No call of the system will fail, the files have the hashes that they are named by, no temporary
  -- file is left, and the directories were made if the store was used before.
  pub record IsSound (d : DiskStore) : Type 0 where
    pub no_faults : d.answers ≡ []
    pub hashed : (j : Str) (b : Blob) → file (dir j) j d.files ≡ some b → blob_hash digest b ≡ j
    pub tmp_empty : (j : Str) → file tmp j d.files ≡ none
    pub ready : d.initialized ≡ true → has_dir tmp d.files ≡ true

  abbrev pub disk_spec : Spec store
  disk_spec = record {
    IsValid = IsSound;
    Fits = λ h b. (blob_hash digest b ≡ h) × (str_eq (dir h) tmp ≡ false);
    view = λ d h. file (dir h) h d.files;
  }

  prepared_ready :
      (c : Bool) (d : DiskStore)
      → (c ≡ true → has_dir tmp d.files ≡ true)
      → (has_dir tmp (prepared c d).files ≡ true) × ((prepared c d).initialized ≡ true → Unit {0})
  unfolding prepared prepare
  prepared_ready true d r = (r refl, λ e. tt)
  prepared_ready false d r = (has_dir-make_dir tmp tmp _ ∙ ground (arith, str_eq_refl tmp), λ e. tt)

  prepared-IsSound : (d : DiskStore) → IsSound d → IsSound (prepared d.initialized d)
  prepared-IsSound d v = record {
    no_faults = prepared_answers d.initialized d v.no_faults;
    hashed = λ j b e. v.hashed j b (sym (file-prepared d.initialized (dir j) j d) ∙ e);
    tmp_empty = λ j. file-prepared d.initialized tmp j d ∙ v.tmp_empty j;
    ready = λ e. (prepared_ready d.initialized d v.ready).0;
  }

  init_once_works : (d : DiskStore) → IsSound d → init_once d ≡ (ok tt, prepared d.initialized d)
  unfolding init_once
  init_once_works d v = init_once_lem d.initialized d v.no_faults

  -- What `Get` answers and leaves.
  got : Option Blob → DiskStore → Result Blob × DiskStore
  got none d = (err blob_not_found, d)
  got (some b) d = (ok b, d)
