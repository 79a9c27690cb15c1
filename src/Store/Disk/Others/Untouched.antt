-- ===== src/Store/Disk/Others/Untouched.antt =====
-- Actions that leave the files of all names but one alone.
use reflector_go.Store.{Blob}
use reflector_go.Store.Disk.{
  DiskStore, Fault, Act, continue, ◌>>=◌, call, answered, next_answer, ensure_dir_exists,
  set_initialized, init_once, tmp,
}
use reflector_go.Store.Disk.Directory.{
  Files, file, make_dir, set_file, unset_file, file-set_file, file-unset_file, file-make_dir,
}
use reflector_go.Errors.{Result, ok, err}
use reflector_go.Prelude.{
  Str, str_eq, Bool, Option, [], ◌∙◌, arith, if◌then◌else◌, ◌≡◌, some, refl, true, false, none,
}

module _ (h : Str) where
  -- The files of the names that are not `h`.
  abbrev pub SparesFiles : Files → Files → Type 0
  SparesFiles f g = (e j : Str) → str_eq h j ≡ false → file e j g ≡ file e j f

  pub SparesFiles-refl : (f : Files) → SparesFiles f f
  SparesFiles-refl f e j ne = refl

  pub SparesFiles-set_file :
      (d : Str) (b : Blob) (f g : Files) → SparesFiles f g → SparesFiles f (set_file d h b g)
  SparesFiles-set_file d b f g p e j ne = file-set_file d e h j b g ∙ ground (arith, p e j ne)

  pub SparesFiles-unset_file :
      (d : Str) (f g : Files) → SparesFiles f g → SparesFiles f (unset_file d h g)
  SparesFiles-unset_file d f g p e j ne = file-unset_file d e h j g ∙ ground (arith, p e j ne)

  pub record Spares {ℓ} {A : Type ℓ} (m : Act A) : Type ℓ where
    pub at : (d : DiskStore) → SparesFiles d.files (m d).1.files

  Spares-answered {ℓ} :
      {A : Type ℓ} (a : Option Fault) (works : Files → Result A × Files)
      (breaks : Fault → Files → Files) (d : DiskStore)
      → SparesFiles d.files (works d.files).1
      → ((x : Fault) → SparesFiles d.files (breaks x d.files))
      → SparesFiles d.files (answered a works breaks d).1.files
  Spares-answered none works breaks d p q = p
  Spares-answered (some x) works breaks d p q = q x

  pub Spares-call {ℓ} :
      {A : Type ℓ} (works : Files → Result A × Files) (breaks : Fault → Files → Files)
      → ((f : Files) → SparesFiles f (works f).1)
      → ((x : Fault) (f : Files) → SparesFiles f (breaks x f))
      → Spares (call works breaks)
  unfolding call
  Spares-call works breaks p q = record {
    at = λ d.
        Spares-answered (next_answer d.answers).0 works breaks
          (record d { answers = (next_answer d.answers).1 }) (p d.files) (λ x. q x d.files);
  }

  Spares-continue {ℓ κ} :
      {A : Type ℓ} {B : Type κ} (r : Result A × DiskStore) (f : A → Act B)
      → ((a : A) → Spares (f a))
      → SparesFiles r.1.files (continue r f).1.files
  Spares-continue (ok a, d) f k = (k a).at d
  Spares-continue (err x, d) f k = λ e j ne. refl

  pub Spares-bind {ℓ κ} :
      {A : Type ℓ} {B : Type κ} (m : Act A) (f : A → Act B)
      → Spares m
      → ((a : A) → Spares (f a))
      → Spares (m >>= f)
  unfolding ◌>>=◌
  Spares-bind m f p k = record { at = λ d e j ne. Spares-continue (m d) f k e j ne ∙ p.at d e j ne }

  pub Spares-ensure_dir_exists : (dir : Str) → Spares (ensure_dir_exists dir)
  unfolding ensure_dir_exists
  Spares-ensure_dir_exists dir =
      Spares-call _ _ (λ f e j ne. file-make_dir dir e j (make_dir [] f) ∙ file-make_dir [] e j f)
        (λ x f. SparesFiles-refl f)

  Spares-set_initialized : Spares set_initialized
  unfolding set_initialized
  Spares-set_initialized = record { at = λ d e j ne. refl }

  pub Spares-if {ℓ} :
      {A : Type ℓ} (c : Bool) (m n : Act A) → Spares m → Spares n → Spares (if c then m else n)
  Spares-if true m n p q = p
  Spares-if false m n p q = q

  Spares-init_steps :
      (c : Bool) (d : DiskStore)
      → SparesFiles d.files
          (if c
            then (ok tt, d)
            else (ensure_dir_exists [] >>= λ _. ensure_dir_exists tmp >>= λ _. set_initialized)
                d).1.files
  Spares-init_steps true d = SparesFiles-refl d.files
  Spares-init_steps false d =
      (Spares-bind _ _ (Spares-ensure_dir_exists [])
          (λ _. Spares-bind _ _ (Spares-ensure_dir_exists tmp) (λ _. Spares-set_initialized))).at
        d

  pub Spares-init_once : Spares init_once
  unfolding init_once
  Spares-init_once = record { at = λ d. Spares-init_steps d.initialized d }
