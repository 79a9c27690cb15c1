-- ===== src/Store/Disk/Directory.antt =====
-- The files under the directory of a `DiskStore`, for store/disk.go: the directory itself, which is
-- named "", and one level of directories in it, each with its files. What a `path.Join` of the
-- store's names is a directory and a name in it: a hash has no slash, is not empty and is the name of
-- no directory.
use reflector_go.Prelude.Dict
use reflector_go.Prelude.Dict.{Dict, lookup, lookup-insert, lookup-erase}
use reflector_go.Store.{Blob}
use reflector_go.Prelude.{
  Str, if◌then◌else◌, ◌≡◌, Bool, Option, arith, [], str_eq, is_some, str_eq_iff, ◌||◌, ◌&&◌, none,
  some,
}

abbrev pub Files : Type 0
Files = Dict (Dict Blob)

unfoldable pub contents : Str → Files → Dict Blob
unfolding lookup
contents dir files = elim (lookup dir files) [ none ↦ [] | some names ↦ names ]

unfoldable pub file : Str → Str → Files → Option Blob
unfolding contents
file dir name files = lookup name (contents dir files)

abbrev pub has_dir : Str → Files → Bool
has_dir dir files = is_some (lookup dir files)

unfoldable pub make_dir : Str → Files → Files
make_dir dir files = if has_dir dir files then files else Dict.insert dir [] files

unfoldable pub set_file : Str → Str → Blob → Files → Files
unfolding contents
set_file dir name blob files = Dict.insert dir (Dict.insert name blob (contents dir files)) files

unfoldable pub unset_file : Str → Str → Files → Files
unfolding contents
unset_file dir name files = Dict.insert dir (Dict.erase name (contents dir files)) files

pub file-set_file :
    (d e n m : Str) (b : Blob) (files : Files)
    → file e m (set_file d n b files)
      ≡ (if str_eq d e && str_eq n m then some b else file e m files)
unfolding file set_file
file-set_file d e n m b files = ground (
  arith,
  str_eq_iff d e,
  lookup-insert d e (Dict.insert n b (contents d files)) files,
  lookup-insert n m b (contents d files),
)

pub file-unset_file :
    (d e n m : Str) (files : Files)
    → file e m (unset_file d n files) ≡ (if str_eq d e && str_eq n m then none else file e m files)
unfolding file unset_file
file-unset_file d e n m files = ground (
  arith,
  str_eq_iff d e,
  lookup-insert d e (Dict.erase n (contents d files)) files,
  lookup-erase n m (contents d files),
)

pub file-make_dir : (d e m : Str) (files : Files) → file e m (make_dir d files) ≡ file e m files
unfolding file make_dir lookup
file-make_dir d e m files = ground (arith, str_eq_iff d e, lookup-insert d e [] files)

pub has_dir-make_dir :
    (d e : Str) (files : Files) → has_dir e (make_dir d files) ≡ (str_eq d e || has_dir e files)
unfolding make_dir
has_dir-make_dir d e files = ground (arith, str_eq_iff d e, lookup-insert d e [] files)

pub has_dir-set_file :
    (d e n : Str) (b : Blob) (files : Files)
    → has_dir e (set_file d n b files) ≡ (str_eq d e || has_dir e files)
unfolding set_file
has_dir-set_file d e n b files =
    ground (arith, lookup-insert d e (Dict.insert n b (contents d files)) files)

pub has_dir-unset_file :
    (d e n : Str) (files : Files)
    → has_dir e (unset_file d n files) ≡ (str_eq d e || has_dir e files)
unfolding unset_file
has_dir-unset_file d e n files =
    ground (arith, lookup-insert d e (Dict.erase n (contents d files)) files)
