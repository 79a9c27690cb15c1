-- ===== src/Store/Disk/Others.antt =====
-- A call for one hash leaves the files of the others alone, whatever the system answers.
pub mod Untouched
use reflector_go.Store.Disk.Others.Untouched.{
  SparesFiles, SparesFiles-refl, SparesFiles-set_file, SparesFiles-unset_file, Spares, Spares-call,
  Spares-bind, Spares-ensure_dir_exists, Spares-if, Spares-init_once,
}
use reflector_go.Store.{Blob}
use reflector_go.Store.Disk
use reflector_go.Store.Disk.{
  DiskStore, Fault, Act, pure, continue, ◌>>=◌, call, answered, next_answer, ensure_dir_exists,
  set_initialized, init_once, tmp, found, has_answer, get_answer, renamed, opened, write_at,
  overlay, then_flush, broken, not_exist, has_dir, blob_hash,
}
use reflector_go.Store.Disk.Directory.{
  Files, file, make_dir, set_file, unset_file, file-set_file, file-unset_file, file-make_dir,
}
use reflector_go.Errors.{Result, ok, err}
use reflector_go.Prelude.{
  Str, ℕ, str_eq, Bool, Option, [], ◌∙◌, arith, List, if◌then◌else◌, ◌≡◌, some, refl, Option-cases,
  true, false, none, inl, inr, Bool-cases, ltb,
}

module _ (h : Str) where
  module _ (prefix_length : ℕ) (buffered : Blob → ℕ) (digest : List ℕ → List ℕ) where
    Spares-read_file : (j : Str) → Spares h (Disk.read_file prefix_length buffered digest j)
    unfolding Disk.read_file
    Spares-read_file j = Spares-call h _ _ (λ f. SparesFiles-refl h f) (λ x f. SparesFiles-refl h f)

    has_answer-Spares :
        (r : Result Blob × DiskStore) → (has_answer prefix_length buffered digest r).1 ≡ r.1
    has_answer-Spares (ok b, d) = refl
    has_answer-Spares (err e, d) = refl

    get_answer-Spares :
        (r : Result Blob × DiskStore) → (get_answer prefix_length buffered digest r).1 ≡ r.1
    get_answer-Spares (ok b, d) = refl
    get_answer-Spares (err e, d) = refl

    Spares-has : (j : Str) → Spares h (Disk.has prefix_length buffered digest j)
    unfolding Disk.has
    Spares-has j = Spares-bind h _ _ (Spares-init_once h) λ _. record {
      at = λ d.
          rw (has_answer-Spares (Disk.read_file prefix_length buffered digest j d))
            ((Spares-read_file j).at d);
    }

    Spares-remove : Spares h (Disk.remove prefix_length buffered digest h)
    unfolding Disk.remove
    Spares-remove =
        Spares-call h _ _
          (λ f. elim (Option-cases (file (Disk.dir prefix_length buffered digest h) h f)) [
            | inl gone ↦ rw gone (SparesFiles-refl h f)
            | inr (b, there) ↦ rw there (SparesFiles-unset_file h _ f f (SparesFiles-refl h f))
          ])
          (λ x f. SparesFiles-refl h f)

    pub Spares-delete : Spares h (Disk.delete prefix_length buffered digest h)
    unfolding Disk.delete
    Spares-delete = Spares-bind h _ _ (Spares-init_once h) λ _.
        Spares-bind h _ _ (Spares-has h)
          λ there. Spares-if h there _ _ Spares-remove (record { at = λ d e j ne. refl })

    Spares-get_answer : Spares h (λ d.
        get_answer prefix_length buffered digest (Disk.read_file prefix_length buffered digest h d))
    Spares-get_answer = record {
      at = λ d.
          rw (get_answer-Spares (Disk.read_file prefix_length buffered digest h d))
            ((Spares-read_file h).at d);
    }

    Spares-answer : (r : Result Blob) → Spares h (λ d. (r, d))
    Spares-answer r = record { at = λ d e j ne. refl }

    checked :
        (c same : Bool) (b : Blob) (d : DiskStore)
        → SparesFiles h d.files
            (if c
              then ((if same
                    then (λ d'. (ok b, d'))
                    else (Disk.delete prefix_length buffered digest h >>= λ _ d'.
                        (err (broken prefix_length buffered digest), d')))
                  d)
              else (ok b, d)).1.files
    checked false same b d = SparesFiles-refl h d.files
    checked true true b d = SparesFiles-refl h d.files
    checked true false b d =
        (Spares-bind h _ _ Spares-delete
            (λ _. Spares-answer (err (broken prefix_length buffered digest)))).at
          d

    Spares-check_blob : (b : Blob) → Spares h (Disk.check_blob prefix_length buffered digest h b)
    unfolding Disk.check_blob
    Spares-check_blob b = record {
      at = λ d. elim (Bool-cases (str_eq h (blob_hash digest b))) [
        | inl same ↦ rw same (checked (ltb d.concurrent_checks Disk.max_concurrent_checks) true b d)
        | inr other ↦
            rw other (checked (ltb d.concurrent_checks Disk.max_concurrent_checks) false b d)
      ];
    }

    pub Spares-get_blob : Spares h (Disk.get_blob prefix_length buffered digest h)
    unfolding Disk.get_blob
    Spares-get_blob =
        Spares-bind h _ _ (Spares-init_once h)
          λ _. Spares-bind h _ _ Spares-get_answer Spares-check_blob

    Spares-open_tmp : Spares h (Disk.open_tmp prefix_length buffered digest h)
    unfolding Disk.open_tmp
    Spares-open_tmp =
        Spares-call h _ _
          (λ f. elim (Bool-cases (has_dir tmp f)) [
            | inr none_there ↦ rw none_there (SparesFiles-refl h f)
            | inl there ↦ elim (Option-cases (file tmp h f)) [
              | inl new ↦ rw (there, new) (SparesFiles-set_file h tmp [] f f (SparesFiles-refl h f))
              | inr (b, old) ↦ rw (there, old) (SparesFiles-refl h f)
            ]
          ])
          (λ x f. SparesFiles-refl h f)

    Spares-new_writer : Spares h (Disk.new_writer prefix_length buffered digest)
    unfolding Disk.new_writer
    Spares-new_writer = Spares-call h _ _ (λ f. SparesFiles-refl h f) (λ x f. SparesFiles-refl h f)

    Spares-copy : (b : Blob) → Spares h (Disk.copy prefix_length buffered digest h b)
    unfolding Disk.copy
    Spares-copy b =
        Spares-call h _ _ (λ f. SparesFiles-set_file h tmp _ f f (SparesFiles-refl h f))
          (λ x f. SparesFiles-set_file h tmp _ f f (SparesFiles-refl h f))

    Spares-rename : Spares h (Disk.rename prefix_length buffered digest h)
    unfolding Disk.rename
    Spares-rename =
        Spares-call h _ _
          (λ f. elim (Option-cases (file tmp h f)) [
            | inl gone ↦ rw gone (SparesFiles-refl h f)
            | inr (b, there) ↦
                elim (Bool-cases (has_dir (Disk.dir prefix_length buffered digest h) f)) [
                  | inr no_dir ↦ rw (there, no_dir) (SparesFiles-refl h f)
                  | inl dir ↦
                      rw (there, dir)
                        (SparesFiles-set_file h _ b f _
                          (SparesFiles-unset_file h tmp f f (SparesFiles-refl h f)))
                ]
          ])
          (λ x f. SparesFiles-refl h f)

    Spares-flush :
        (where_ : Str) (b : Blob) (d : DiskStore)
        → SparesFiles h d.files (Disk.flush prefix_length buffered digest where_ h b d).files
    unfolding Disk.flush
    Spares-flush where_ b d =
        (Spares-call h {A = Unit {0}} _ _
            (λ f. SparesFiles-set_file h where_ _ f f (SparesFiles-refl h f))
            (λ x f. SparesFiles-set_file h where_ _ f f (SparesFiles-refl h f))).at
          d

    Spares-then_flush :
        (b : Blob) (r : Result (Unit {0}) × DiskStore)
        → SparesFiles h r.1.files (then_flush prefix_length buffered digest h b r).1.files
    Spares-then_flush b (ok _, d) = Spares-flush (Disk.dir prefix_length buffered digest h) b d
    Spares-then_flush b (err x, d) = Spares-flush tmp b d

    Spares-write_blob : (b : Blob) → Spares h (Disk.write_blob prefix_length buffered digest h b)
    unfolding Disk.write_blob
    Spares-write_blob b = Spares-bind h _ _ (Spares-copy b) λ _. record {
      at = λ d e j ne.
          Spares-then_flush b (Disk.rename prefix_length buffered digest h d) e j ne
          ∙ Spares-rename.at d e j ne;
    }

    pub Spares-put : (b : Blob) → Spares h (Disk.put prefix_length buffered digest h b)
    unfolding Disk.put
    Spares-put b = Spares-bind h _ _ (Spares-init_once h) λ _.
        Spares-bind h _ _ (Spares-ensure_dir_exists h (Disk.dir prefix_length buffered digest h))
          λ _.
            Spares-bind h _ _ Spares-open_tmp
              λ _. Spares-bind h _ _ Spares-new_writer λ _. Spares-write_blob b

module _ (prefix_length : ℕ) (buffered : Blob → ℕ) (digest : List ℕ → List ℕ) where
  -- The file of a hash in the store's directory.
  abbrev pub blob_file : Str → DiskStore → Option Blob
  blob_file j d = file (Disk.dir prefix_length buffered digest j) j d.files
