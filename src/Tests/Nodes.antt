-- ===== src/Tests/Nodes.antt =====
-- A cluster of two live nodes and one that has failed, over a database with two stored blobs. The
-- first part of a range is all of it, and the others have no hashes.
use reflector_go.Cluster
use reflector_go.Cluster.{Member, names_of, get_alive_members, get_hash_interval}
use reflector_go.Cluster.Intervals.{IsDivided, get_hash_interval-IsDivided}
use reflector_go.Prism.{Config, on_membership_change}
use reflector_go.Prism.Announced.{announced_by}
use reflector_go.Db.Tables.{Tables, BlobRow}
use reflector_go.Db.Insert.{track_access_blobs}
use reflector_go.Db.Ranges
use reflector_go.Db.Ranges.{Range, in_range}
use reflector_go.Order.{AreDistinct, str_leb}
use reflector_go.Prelude.Int.{pos, negsuc}
use reflector_go.Prelude.{
  List, Str, bytes, none, str_eq, ℕ, if◌then◌else◌, ◌∷◌, true, ◌≡◌, ◌==◌, false, refl, [],
}

abbrev members : List Member
members =
    record { name = bytes "n2"; is_alive = true }
    ∷ record { name = bytes "n3"; is_alive = false }
    ∷ record { name = bytes "n1"; is_alive = true }
    ∷ []

names-AreDistinct : AreDistinct (names_of (get_alive_members members))
unfolding str_eq
names-AreDistinct = (refl, (refl, tt))

get_hash_interval-IsDivided_example : IsDivided (get_alive_members members)
get_hash_interval-IsDivided_example =
    get_hash_interval-IsDivided (get_alive_members members) names-AreDistinct

interval_run :
    (Cluster.membership_change (bytes "n2") members ≡ (pos 2, 2))
    × (Cluster.membership_change (bytes "n3") members ≡ (negsuc 0, 2))
unfolding Cluster.membership_change str_leb str_eq
interval_run = (refl, refl)

abbrev all_or_none : ℕ → ℕ → Range → Range
all_or_none n total r = if n == 1 then r else record { start = 1 ∷ []; end = [] }

abbrev blob : ℕ → Str → BlobRow
blob id hash = record {
  id = id;
  hash = hash;
  is_stored = true;
  length = 3;
  last_accessed_at = none;
}

abbrev tables : Tables
tables = record {
  blob_ = blob 1 (bytes "bb") ∷ blob 2 (bytes "aa") ∷ [];
  stream = [];
  stream_blob = [];
  blocked = [];
  next_blob_id = 3;
  next_stream_id = 1;
  now = 100000;
  reports_updated_id = false;
  answers = [];
}

abbrev conf : Config
conf = record {
  hash_range = none;
  db = record { connected = true; track_access = track_access_blobs; soft_delete = false };
}

announced_run :
    announced_by all_or_none conf members tables (bytes "n1") ≡ bytes "bb" ∷ bytes "aa" ∷ []
unfolding on_membership_change str_leb str_eq Ranges.get_hash_range in_range
announced_run = refl
