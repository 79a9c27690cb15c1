-- ===== src/Tests/Claims.antt =====
-- Publishing a file, and the stacks of the reflector command.
use reflector_go.Publish
use reflector_go.Publish.Mime.{guess_mime_type}
use reflector_go.Reflector.Client
use reflector_go.Prelude.{
  List, Str, str_eq, ℕ, true, ◌∷◌, bytes, ◌≡◌, [], refl, ◌⊎◌, none, false, ◌^◌, some,
}
use reflector_go.Errors.{ok, Result, external}
use reflector_go.Reflector.Client.{Client}
use reflector_go.Publish.{Details, Encoded}
use reflector_go.Commands.Stacks.{
  Flags, Servers, Stack, db_backed, caching, s3_store, gcache, disk, lru, mem,
}
use reflector_go.Reflector.Server.{send_sd_blob, received_sd_blob, send_blob, received_blob}
use reflector_go.Publish.Order.{IsUploaded, publish-IsOrdered}
use reflector_go.Prelude.Int.{pos}

guess_mp4 : guess_mime_type (bytes " .MP4") ≡ (bytes "video/mp4", bytes "video")
unfolding guess_mime_type str_eq
guess_mp4 = refl

-- A name that ends with a dot has no extension behind it.
guess_dot : guess_mime_type (bytes ".") ≡ (bytes "application/x-ext-", bytes "binary")
unfolding guess_mime_type str_eq
guess_dot = refl

-- A reflector that takes both blobs of the stream.
abbrev reflector_client : Client
reflector_client = record {
  connected = true;
  inbox = send_sd_blob true [] ∷ received_sd_blob true ∷ send_blob true ∷ received_blob true ∷ [];
  ending = external 0;
  outbox = [];
  write_errors = [];
}

abbrev file : Encoded
file = record {
  blobs = (1 ∷ []) ∷ (2 ∷ []) ∷ [];
  sd_hash = 1 ∷ [];
  source_len = 1;
  source_hash = 2 ∷ [];
}

abbrev Net : Type 0
Net =
    Publish.Network (λ m. []) (λ b. []) (λ b. none) ℕ (List ℕ) ℕ (λ a. ok 0) (λ a. ok [])
      (λ path. ok file) (λ c. ok []) (ok 1) (λ a. ok []) (λ ops. ok []) (λ tx n script. n ∷ tx)
      (λ tx. ok (tx, true)) (λ a. ok reflector_client) (λ tx. ok 9)

abbrev fresh : Net
fresh = record { reflector = none; chain = [] }

abbrev details : Details
details = record { title = []; description = []; author = []; release_time = 0 }

abbrev published : Result (List ℕ × ℕ) × Net
published =
    Publish.publish (λ m. []) (λ b. []) (λ b. none) ℕ (List ℕ) ℕ (λ a. ok 0) (λ a. ok [])
      (λ path. ok file) (λ c. ok []) (ok 1) (λ a. ok []) (λ ops. ok []) (λ tx n script. n ∷ tx)
      (λ tx. ok (tx, true)) (λ a. ok reflector_client) (λ tx. ok 9) (bytes "/f.mp4") (bytes "n")
      (bytes "a") details (bytes "r") fresh

published_chain : published.1.chain ≡ (1 ∷ []) ∷ []
unfolding Publish.publish Publish.◌>>=◌ str_eq Client.send Client.◌>>=◌
published_chain = refl

publish-IsOrdered_example :
    (published.1.chain ≡ [])
    ⊎ ((tx : List ℕ) × (published.1.chain ≡ tx ∷ [])
        × IsUploaded
            (λ m. [])
            (λ b. [])
            (λ b. none)
            ℕ
            (List ℕ)
            ℕ
            (λ a. ok 0)
            (λ a. ok [])
            (λ path. ok file)
            (λ c. ok [])
            (ok 1)
            (λ a. ok [])
            (λ ops. ok [])
            (λ tx n script. n ∷ tx)
            (λ tx. ok (tx, true))
            (λ a. ok reflector_client)
            (λ tx. ok 9)
            (bytes "/f.mp4")
            (bytes "r"))
publish-IsOrdered_example =
    publish-IsOrdered (λ m. []) (λ b. []) (λ b. none) ℕ (List ℕ) ℕ (λ a. ok 0) (λ a. ok [])
      (λ path. ok file) (λ c. ok []) (ok 1) (λ a. ok []) (λ ops. ok []) (λ tx n script. n ∷ tx)
      (λ tx. ok (tx, true)) (λ a. ok reflector_client) (λ tx. ok 9) (bytes "/f.mp4") (bytes "r")
      (bytes "n") (bytes "a") details fresh

abbrev flags : Flags
flags = record {
  upstream_reflector = [];
  upstream_protocol = bytes "http";
  origin_endpoint = [];
  origin_endpoint_fallback = [];
  conf = bytes "config.json";
  db_conn = bytes "db";
  use_db = true;
  disk_cache = bytes "1:/c:lru";
  secondary_disk_cache = [];
  mem_cache = 5;
  disable_uploads = false;
  disable_blocklist = false;
}

abbrev one_gigabyte : Str → Result ℕ
one_gigabyte s = ok (2 ^ 30)

abbrev underlying_stack : Stack
underlying_stack = db_backed s3_store (bytes "db") false

abbrev outer_stack : Stack
outer_stack =
    caching (bytes "reflector")
      (caching (bytes "reflector") underlying_stack
        (gcache (bytes "nvme") (disk (bytes "/c") 2) (pos 512) lru))
      (gcache (bytes "mem") mem (pos 5) lru)

abbrev servers : Servers one_gigabyte (2 ^ 21)
servers = record {
  reflector = some (underlying_stack, outer_stack, true);
  peer = outer_stack;
  http3 = outer_stack;
  http = outer_stack;
}
