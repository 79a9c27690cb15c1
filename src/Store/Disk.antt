-- ===== src/Store/Disk.antt =====
-- store/disk.go: `DiskStore`, over a model of the files under its directory. What the system answers
-- to each call, the call's effect or an error, is an input. SHA-384 is the parameter `digest`, and
-- `buffered` says how many bytes of a blob the writer of the directio library has written before its
-- `Flush`. The file is opened without truncation.
pub mod Directory
pub mod Others
pub mod Checks
pub mod Contract
use reflector_go.Store.{Blob, BlobStore}
use reflector_go.Store.Disk.Directory.{Files, file, has_dir, make_dir, set_file, unset_file}
use reflector_go.Reflector.Hash.{blob_hash}
use reflector_go.Errors.{Error, Result, ok, err, error_text, external, blob_not_found}
use reflector_go.Shared.{BlobTrace, new_blob_trace}
use reflector_go.Prelude.{
  Bool, List, Option, Str, if◌then◌else◌, true, ℕ, take, false, bytes, ltb, none, some, length, [],
  ◌==◌, ◌∷◌, ◌++◌, ◌||◌, str_eq, drop,
}

abbrev name_disk : Str
name_disk = bytes "disk"

-- A call that fails, with its error and, for a call that writes, what the file then holds.
pub record Fault : Type 0 where
  pub error : Error
  pub leaves : Blob

-- `os.IsNotExist` holds of the error ENOENT alone, which is number 2.
abbrev pub not_exist : Error
not_exist = external 2

abbrev pub is_not_exist : Error → Bool
is_not_exist (external n) = n == 2
is_not_exist _ = false

-- `initialized`, the checks of other goroutines that run, the files, and the system's answers to the
-- calls to come (`none`, or no entry, for a call that works).
pub record DiskStore : Type 0 where
  pub initialized : Bool
  pub concurrent_checks : ℕ
  pub files : Files
  pub answers : List (Option Fault)

abbrev pub max_concurrent_checks : ℕ
max_concurrent_checks = 30

abbrev pub next_answer : List (Option Fault) → Option Fault × List (Option Fault)
next_answer [] = (none, [])
next_answer (a ∷ rest) = (a, rest)

abbrev pub Act {ℓ} : Type ℓ → Type ℓ
Act A = DiskStore → Result A × DiskStore

abbrev pub pure {ℓ} : {A : Type ℓ} → A → Act A
pure a d = (ok a, d)

abbrev pub continue {ℓ κ} :
    {A : Type ℓ} {B : Type κ} → Result A × DiskStore → (A → Act B) → Result B × DiskStore
continue (ok a, d) f = f a d
continue (err e, d) f = (err e, d)

infixl 5 ◌>>=◌ ◌>>◌
unfoldable pub ◌>>=◌ {ℓ κ} : {A : Type ℓ} {B : Type κ} → Act A → (A → Act B) → Act B
◌>>=◌ m f d = continue (m d) f

abbrev pub ◌>>◌ {ℓ κ} : {A : Type ℓ} {B : Type κ} → Act A → Act B → Act B
m >> k = m >>= λ _. k

-- A call of the system: `works` on the files, or what `breaks` makes of them and an error.
abbrev pub answered {ℓ} :
    {A : Type ℓ} → Option Fault → (Files → Result A × Files) → (Fault → Files → Files) → Act A
answered none works breaks d = let (r, f) = works d.files in (r, record d { files = f })
answered (some fault) works breaks d = (err fault.error, record d { files = breaks fault d.files })

unfoldable pub call {ℓ} :
    {A : Type ℓ} → (Files → Result A × Files) → (Fault → Files → Files) → Act A
call works breaks d =
    let (a, rest) = next_answer d.answers in answered a works breaks (record d { answers = rest })

-- A call that leaves the files as they are where it fails.
abbrev pub os {ℓ} : {A : Type ℓ} → (Files → Result A × Files) → Act A
os works = call works (λ fault f. f)

-- `d.ensureDirExists(dir)`: `os.MkdirAll` makes the parent too.
unfoldable pub ensure_dir_exists : Str → Act (Unit {0})
unfolding call
ensure_dir_exists dir = os (λ f. (ok tt, make_dir dir (make_dir [] f)))

unfoldable pub set_initialized : Act (Unit {0})
set_initialized d = (ok tt, record d { initialized = true })

abbrev pub tmp : Str
tmp = bytes "tmp"

-- `d.initOnce()`
unfoldable pub init_once : Act (Unit {0})
unfolding ensure_dir_exists set_initialized
init_once d =
    if d.initialized
    then (ok tt, d)
    else (ensure_dir_exists [] >> (ensure_dir_exists tmp >> set_initialized)) d

-- `os.Stat(…)` and `ioutil.ReadFile(…)`
abbrev pub found : Option Blob → Result Blob
found none = err not_exist
found (some blob) = ok blob

module _ (prefix_length : ℕ) (buffered : Blob → ℕ) (digest : List ℕ → List ℕ) where
  -- `d.dir(hash)`; `d.path(hash)` is the hash in it.
  unfoldable pub dir : Str → Str
  dir hash =
      if prefix_length == 0 || ltb (length hash) prefix_length then [] else take prefix_length hash

  unfoldable pub read_file : Str → Act Blob
  unfolding call file dir
  read_file hash = os (λ f. (found (file (dir hash) hash f), f))

  abbrev pub has_answer : Result Blob × DiskStore → Result Bool × DiskStore
  has_answer (ok b, d) = (ok true, d)
  has_answer (err e, d) = (if is_not_exist e then ok false else err e, d)

  -- `Has`. (`os.Stat` and the reading of the file look it up alike.)
  unfoldable pub has : Str → Act Bool
  unfolding init_once read_file
  has hash = init_once >> λ d. has_answer (read_file hash d)

  -- `os.Remove(…)`
  unfoldable pub remove : Str → Act (Unit {0})
  unfolding call file unset_file dir
  remove hash = os (λ f. elim (file (dir hash) hash f) [
    | none ↦ (err not_exist, f)
    | some b ↦ (ok tt, unset_file (dir hash) hash f)
  ])

  -- `Delete`
  unfoldable pub delete : Str → Act (Unit {0})
  unfolding has remove init_once
  delete hash = init_once >> (has hash >>= λ there. if there then remove hash else pure tt)

  abbrev pub broken : Error
  broken = error_text "found a broken blob while reading from disk"

  -- The part of `Get` behind the read: the blob's hash is checked, unless too many checks run.
  unfoldable pub check_blob : Str → Blob → Act Blob
  unfolding delete blob_hash
  check_blob hash blob d =
      if ltb d.concurrent_checks max_concurrent_checks
      then (if str_eq hash (blob_hash digest blob)
          then (ok blob, d)
          else (delete hash >> λ d'. (err broken, d')) d)
      else (ok blob, d)

  abbrev pub get_answer : Result Blob × DiskStore → Result Blob × DiskStore
  get_answer (ok b, d) = (ok b, d)
  get_answer (err e, d) = (err (if is_not_exist e then blob_not_found else e), d)

  unfoldable pub get_blob : Str → Act Blob
  unfolding init_once read_file check_blob
  get_blob hash = init_once >> ((λ d. get_answer (read_file hash d)) >>= check_blob hash)

  -- `Get`
  unfoldable pub get : Str → DiskStore → Result Blob × BlobTrace × DiskStore
  unfolding get_blob
  get hash d = let (r, d') = get_blob hash d in (r, new_blob_trace name_disk, d')

  -- `os.OpenFile(d.tmpPath(hash), …)`: an old file stays as it is.
  abbrev pub opened : Str → Option Blob → Files → Files
  opened hash none f = set_file tmp hash [] f
  opened hash (some old) f = f

  unfoldable pub open_tmp : Str → Act (Unit {0})
  unfolding call file set_file
  open_tmp hash =
      os (λ f.
        if has_dir tmp f then (ok tt, opened hash (file tmp hash f) f) else (err not_exist, f))

  -- `directio.New(f)`
  unfoldable pub new_writer : Act (Unit {0})
  unfolding call
  new_writer = os (λ f. (ok tt, f))

  -- What a file holds after `n` bytes of the blob are written from its start.
  abbrev pub overlay : ℕ → Blob → Option Blob → Blob
  overlay n blob none = take n blob
  overlay n blob (some old) = take n blob ++ drop n old

  abbrev pub write_at : Str → Str → ℕ → Blob → Files → Files
  write_at where_ hash n blob f = set_file where_ hash (overlay n blob (file where_ hash f)) f

  -- `io.Copy(dio, …)`
  unfoldable pub copy : Str → Blob → Act (Unit {0})
  unfolding call file set_file
  copy hash blob =
      call (λ f. (ok tt, write_at tmp hash (buffered blob) blob f))
        (λ fault f. set_file tmp hash fault.leaves f)

  abbrev pub renamed : Str → Option Blob → Files → Result (Unit {0}) × Files
  renamed hash none f = (err not_exist, f)
  renamed hash (some b) f =
      if has_dir (dir hash) f
      then (ok tt, set_file (dir hash) hash b (unset_file tmp hash f))
      else (err not_exist, f)

  -- `os.Rename(d.tmpPath(hash), d.path(hash))`
  unfoldable pub rename : Str → Act (Unit {0})
  unfolding call file set_file unset_file dir
  rename hash = os (λ f. renamed hash (file tmp hash f) f)

  -- The deferred `dio.Flush()` behind a copy that worked, whose error is dropped. The file is where
  -- the rename has put it, or still the temporary file.
  unfoldable pub flush : Str → Str → Blob → DiskStore → DiskStore
  unfolding call file set_file
  flush where_ hash blob d =
      (call {A = Unit {0}} (λ f. (ok tt, write_at where_ hash (length blob) blob f))
        (λ fault f. set_file where_ hash fault.leaves f) d).1

  abbrev pub then_flush : Str → Blob → Result (Unit {0}) × DiskStore → Result (Unit {0}) × DiskStore
  then_flush hash blob (ok _, d) = (ok tt, flush (dir hash) hash blob d)
  then_flush hash blob (err e, d) = (err e, flush tmp hash blob d)

  -- The copy, the rename and the deferred flush. Behind a copy that failed, the fault says what the
  -- file holds after the flush.
  unfoldable pub write_blob : Str → Blob → Act (Unit {0})
  unfolding copy rename flush
  write_blob hash blob = copy hash blob >> λ d. then_flush hash blob (rename hash d)

  -- `Put` and `PutSD`
  unfoldable pub put : Str → Blob → Act (Unit {0})
  unfolding init_once ensure_dir_exists open_tmp new_writer write_blob dir
  put hash blob =
      init_once
      >> (ensure_dir_exists (dir hash) >> (open_tmp hash >> (new_writer >> write_blob hash blob)))

  abbrev pub disk_store : BlobStore
  disk_store = record {
    State = DiskStore;
    name = name_disk;
    has = has;
    get = get;
    put = put;
    put_sd = put;
    delete = delete;
    shutdown = λ d. d;
  }
