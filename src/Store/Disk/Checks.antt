-- ===== src/Store/Disk/Checks.antt =====
-- What `Get` returns was checked.
use reflector_go.Store.{Blob}
use reflector_go.Store.Disk
use reflector_go.Store.Disk.{
  DiskStore, Fault, Act, pure, continue, ◌>>=◌, call, answered, next_answer, ensure_dir_exists,
  set_initialized, init_once, tmp, get_answer, broken,
}
use reflector_go.Store.Disk.Directory.{Files}
use reflector_go.Reflector.Hash.{blob_hash}
use reflector_go.Errors.{Result, ok, err}
use reflector_go.Prelude.{
  Bool-cases, Option, Str, ℕ, ◌∙◌, ◌≡◌, some, List, refl, inl, ◌<◌, inr, ltb, ◌≢◌, none, ap, true,
  [], str_eq, arith, str_eq_iff, Bool, if◌then◌else◌, false,
}

-- A call that starts and ends no check.
record Counts {ℓ} {A : Type ℓ} (m : Act A) : Type ℓ where
  at : (d : DiskStore) → (m d).1.concurrent_checks ≡ d.concurrent_checks

Counts-answered {ℓ} :
    {A : Type ℓ} (a : Option Fault) (works : Files → Result A × Files)
    (breaks : Fault → Files → Files) (d : DiskStore)
    → (answered a works breaks d).1.concurrent_checks ≡ d.concurrent_checks
Counts-answered none works breaks d = refl
Counts-answered (some x) works breaks d = refl

Counts-call {ℓ} :
    {A : Type ℓ} (works : Files → Result A × Files) (breaks : Fault → Files → Files)
    → Counts (call works breaks)
unfolding call
Counts-call works breaks = record {
  at = λ d.
      Counts-answered (next_answer d.answers).0 works breaks
        (record d { answers = (next_answer d.answers).1 });
}

Counts-continue {ℓ κ} :
    {A : Type ℓ} {B : Type κ} (r : Result A × DiskStore) (f : A → Act B)
    → ((a : A) → Counts (f a))
    → (continue r f).1.concurrent_checks ≡ r.1.concurrent_checks
Counts-continue (ok a, d) f k = (k a).at d
Counts-continue (err x, d) f k = refl

Counts-bind {ℓ κ} :
    {A : Type ℓ} {B : Type κ} (m : Act A) (f : A → Act B)
    → Counts m
    → ((a : A) → Counts (f a))
    → Counts (m >>= f)
unfolding ◌>>=◌
Counts-bind m f p k = record { at = λ d. Counts-continue (m d) f k ∙ p.at d }

Counts-ensure_dir_exists : (dir : Str) → Counts (ensure_dir_exists dir)
unfolding ensure_dir_exists
Counts-ensure_dir_exists dir = Counts-call _ _

Counts-set_initialized : Counts set_initialized
unfolding set_initialized
Counts-set_initialized = record { at = λ d. refl }

init_once_counts :
    (c : Bool) (d : DiskStore)
    → (if c
        then (ok tt, d)
        else (ensure_dir_exists [] >>= λ _. ensure_dir_exists tmp >>= λ _. set_initialized)
            d).1.concurrent_checks
      ≡ d.concurrent_checks
init_once_counts true d = refl
init_once_counts false d =
    (Counts-bind _ _ (Counts-ensure_dir_exists [])
        (λ _. Counts-bind _ _ (Counts-ensure_dir_exists tmp) (λ _. Counts-set_initialized))).at
      d

Counts-init_once : Counts init_once
unfolding init_once
Counts-init_once = record { at = λ d. init_once_counts d.initialized d }

continue_ok {ℓ κ} :
    {A : Type ℓ} {B : Type κ} (r : Result A × DiskStore) (f : A → Act B) (b : B)
    → (continue r f).0 ≡ ok b
    → (a : A) × (r.0 ≡ ok a) × ((f a r.1).0 ≡ ok b)
continue_ok (ok a, d) f b e = (a, refl, e)
continue_ok (err x, d) f b e = cc

module _ (prefix_length : ℕ) (buffered : Blob → ℕ) (digest : List ℕ → List ℕ) where
  Counts-read_file : (h : Str) → Counts (Disk.read_file prefix_length buffered digest h)
  unfolding Disk.read_file
  Counts-read_file h = Counts-call _ _

  get_answer_counts :
      (r : Result Blob × DiskStore) → (get_answer prefix_length buffered digest r).1 ≡ r.1
  get_answer_counts (ok b, d) = refl
  get_answer_counts (err e, d) = refl

  delete_then_fails :
      (r : Result (Unit {0}) × DiskStore) (b : Blob)
      → (continue r (λ _ d. (err (broken prefix_length buffered digest), d))).0 ≢ ok b
  delete_then_fails (ok _, d) b = λ e. cc
  delete_then_fails (err x, d) b = λ e. cc

  checked :
      (h : Str) (b c : Blob) (d : DiskStore)
      → ltb d.concurrent_checks Disk.max_concurrent_checks ≡ true
      → (Disk.check_blob prefix_length buffered digest h b d).0 ≡ ok c
      → blob_hash digest c ≡ h
  unfolding Disk.check_blob ◌>>=◌
  checked h b c d few e = elim (Bool-cases (str_eq h (blob_hash digest b))) [
    | inl same ↦
        let f : ok b ≡ ok c = rw (few, same) at e in
        ground (arith, str_eq_iff h (blob_hash digest b))
    | inr other ↦
        absurd (
          delete_then_fails (Disk.delete prefix_length buffered digest h d) c
            (rw (few, other) at e))
  ]

  -- While fewer than `max_concurrent_checks` other checks run, a blob that `Get` returns has the hash
  -- that was asked for, whatever is on the disk and whatever the system answers.
  pub disk_store-get-checked :
      (h : Str) (b : Blob) (d : DiskStore)
      → d.concurrent_checks < Disk.max_concurrent_checks
      → (Disk.get prefix_length buffered digest h d).0 ≡ ok b
      → blob_hash digest b ≡ h
  unfolding Disk.get Disk.get_blob ◌>>=◌
  disk_store-get-checked h b d few e =
      let (u, started, f) = continue_ok (init_once d) _ b e in
      let read = Disk.read_file prefix_length buffered digest h (init_once d).1 in
      let (c, was_read, g) = continue_ok (get_answer prefix_length buffered digest read) _ b f in
      let same : (get_answer prefix_length buffered digest read).1.concurrent_checks
          ≡ d.concurrent_checks =
        ap (λ (x : DiskStore). x.concurrent_checks) (get_answer_counts read)
        ∙ (Counts-read_file h).at (init_once d).1
        ∙ Counts-init_once.at d in
      checked h c b _ (rw same (ground arith)) g
