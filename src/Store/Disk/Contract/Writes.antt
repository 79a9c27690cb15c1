-- ===== src/Store/Disk/Contract/Writes.antt =====
-- `Put` on a disk without faults, and the contract of the stores.
use reflector_go.Store.{Blob}
use reflector_go.Store.Disk
use reflector_go.Store.Disk.{
  Fault, Act, pure, continue, ◌>>=◌, call, ensure_dir_exists, set_initialized, init_once, renamed,
  opened, write_at, overlay, then_flush, disk_store,
}
use reflector_go.Prelude.{ℕ, List, Str}

module _ (prefix_length : ℕ) (buffered : Blob → ℕ) (digest : List ℕ → List ℕ) where
  abbrev dir : Str → Str
  dir hash = Disk.dir prefix_length buffered digest hash
