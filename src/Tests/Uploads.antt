-- ===== src/Tests/Uploads.antt =====
-- An upload of two files into a memory store: one under the hash of its blob, one under another name.
-- Blobs are their own digests, and none is JSON.
use reflector_go.Reflector.Uploader
use reflector_go.Reflector.Uploader.{World, base}
use reflector_go.Reflector.Uploader.Run
use reflector_go.Reflector.Uploader.Run.{Step, send, finish, Reach, here, step_then, started}
use reflector_go.Reflector.Uploader.Files.{upload_keeps_files}
use reflector_go.Reflector.Uploader.Uploaded.{IsStored}
use reflector_go.Reflector.Hash.{blob_hash}
use reflector_go.Store.{Blob}
use reflector_go.Store.Mem
use reflector_go.Store.Mem.{MemStore, mem_store, mem_spec, mem_store-Implements}
use reflector_go.Prelude.Dict
use reflector_go.Prelude.Dict.{Dict, lookup}
use reflector_go.Prelude.{
  Bool, List, Str, [], str_eq, true, ℕ, ◌∷◌, ◌≡◌, bytes, false, refl, some, arith, ◌⊎◌,
}

abbrev own_digest : List ℕ → List ℕ
own_digest b = b

abbrev never : Blob → Bool
never b = false

abbrev Hashed : Str → Blob → Type 0
Hashed h b = blob_hash own_digest b ≡ h

abbrev good : Str
good = bytes "d/78"

abbrev bad : Str
bad = bytes "d/00"

abbrev files : World mem_store own_digest never
files = record {
  store_state = record { blobs = [] };
  files = (good, bytes "x") ∷ (bad, bytes "y") ∷ [];
  answers = [];
}

abbrev Upload : Type 0
Upload = Run.Run mem_store own_digest never 2 true

abbrev before : Upload
before = started mem_store own_digest never 2 true (good ∷ bad ∷ []) [] files

abbrev sent : Upload
sent = record before { pending = bad ∷ []; in_flight = good ∷ [] }

abbrev uploaded : Upload
uploaded = record (Run.worked mem_store own_digest never 2 true good sent) { in_flight = [] }

steps : Reach mem_store own_digest never 2 true 2 before uploaded
unfolding lookup
steps =
    step_then 1 before sent uploaded (send before good (bad ∷ []) refl refl (omega arith))
      (step_then 0 sent uploaded uploaded (finish sent [] good [] refl) (here uploaded))

empty_valid : (mem_spec Hashed).IsValid files.store_state
unfolding lookup
empty_valid h b e = cc

upload_keeps_files_example :
    (lookup good uploaded.world.files ≡ some (bytes "x"))
    ⊎ IsStored (mem_spec Hashed) own_digest never uploaded.world.store_state (base good)
unfolding lookup str_eq
upload_keeps_files_example =
    upload_keeps_files (mem_spec Hashed) own_digest never (mem_store-Implements Hashed) (λ b. refl)
      files 2 true (good ∷ bad ∷ []) [] 2 uploaded good (bytes "x") empty_valid steps refl

upload_run :
    (uploaded.world.files ≡ (bad, bytes "y") ∷ [])
    × (uploaded.world.store_state.blobs ≡ (bytes "78", bytes "x") ∷ [])
    × (uploaded.count.blobs ≡ 1)
unfolding Uploader.work Mem.put lookup str_eq Dict.insert Dict.erase
upload_run = (refl, refl, refl)
