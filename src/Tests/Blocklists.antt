-- ===== src/Tests/Blocklists.antt =====
-- An update of the blocklist with one outpoint, whose claim has the sd hash "aa", and one that is no
-- outpoint.
use reflector_go.Reflector.Blocklist.{ValOrErr, ListBlocked, outpoint_value, update_blocklist}
use reflector_go.Split
use reflector_go.Split.{atoi, split}
use reflector_go.Store.{Blob}
use reflector_go.Store.Mem
use reflector_go.Store.Mem.{MemStore, mem_store}
use reflector_go.Store.DbBacked
use reflector_go.Store.DbBacked.{DbBackedStore, block}
use reflector_go.Db.Exec.{exec_loop}
use reflector_go.Db.Insert.{Sql, track_access_blobs}
use reflector_go.Db.Streams.{SdBlob}
use reflector_go.Errors.{Result, ok, err, error_text, not_implemented}
use reflector_go.Prelude.Dict
use reflector_go.Prelude.Dict.{lookup}
use reflector_go.Prelude.Int.{ℤ, negsuc}
use reflector_go.Prelude.{List, Str, bytes, str_eq, true, ◌≡◌, false, [], none, ◌∷◌, refl, some}

abbrev no_decode : Blob → Result SdBlob
no_decode b = err not_implemented

abbrev sql : Sql
sql = record { connected = true; track_access = track_access_blobs; soft_delete = false }

abbrev store : DbBackedStore mem_store no_decode sql true
store = record {
  blob_state = record { blobs = [] };
  tables = record {
    blob_ = [];
    stream = [];
    stream_blob = [];
    blocked = [];
    next_blob_id = 1;
    next_stream_id = 1;
    now = 100000;
    reports_updated_id = false;
    answers = [];
  };
  blocked = none;
}

abbrev claim : Str → ℤ → Result Str
claim txid nout = ok (bytes "aa")

abbrev listed : ListBlocked
listed = record { success = true; error = []; outpoints = bytes "t" ∷ bytes "t:0" ∷ [] }

abbrev in_order : List (Str × ValOrErr) → List (Str × ValOrErr)
in_order values = values

update_run :
    (update_blocklist claim
      (DbBackedStore mem_store no_decode sql true)
      (block mem_store no_decode sql true)
      in_order
      (ok tt)
      (ok listed)
      []
      store).0
    ≡ error_text "invalid outpoint format" ∷ []
unfolding update_blocklist outpoint_value Split.split_from atoi block exec_loop lookup str_eq
    Dict.insert Mem.delete DbBacked.◌>>=◌
update_run = refl

atoi_run :
    (atoi (bytes "-12") ≡ some (negsuc 11))
    × (atoi (bytes "9223372036854775808") ≡ none)
    × (atoi (bytes "1x") ≡ none)
unfolding atoi
atoi_run = (refl, refl, refl)
