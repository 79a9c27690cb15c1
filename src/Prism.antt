-- ===== src/Prism.antt =====
-- prism/prism.go: `AnnounceRange`, which a change of the cluster's membership calls. The dht library's
-- `IntervalP` is a parameter; what is announced is the result. Starting and stopping are left out.
pub mod Announced
use reflector_go.Cluster.{Member, membership_change}
use reflector_go.Db.Tables.{Tables}
use reflector_go.Db.Exec.{Act}
use reflector_go.Db.Insert.{Sql}
use reflector_go.Db.Ranges.{Range, get_hash_range, get_stored_hashes_in_range}
use reflector_go.Errors.{Result, ok, err}
use reflector_go.Prelude.Int.{ℤ, pos, negsuc}
use reflector_go.Prelude.{Option, ℕ, List, Str, [], some, suc, none, zero}

-- `Config`, as far as `AnnounceRange` reads it.
pub record Config : Type 0 where
  pub hash_range : Option Range
  pub db : Sql

module _ (interval : ℕ → ℕ → Range → Range) where
  -- The hashes that come out of the channel. An error is logged.
  abbrev pub announced : Result (List Str) × Tables → List Str × Tables
  announced (ok hashes, t) = (hashes, t)
  announced (err e, t) = ([], t)

  unfoldable pub announce_in : Sql → Range → Tables → List Str × Tables
  unfolding get_stored_hashes_in_range
  announce_in db r t = announced (get_stored_hashes_in_range db r t)

  abbrev pub announce_interval : Sql → ℕ → ℕ → Result Range × Tables → List Str × Tables
  announce_interval db n total (ok r, t) = announce_in db (interval n total r) t
  announce_interval db n total (err e, t) = ([], t)

  abbrev pub announce_from : Option Range → Sql → ℕ → ℕ → Tables → List Str × Tables
  announce_from (some r) db n total t = announce_in db r t
  announce_from none db n total t = announce_interval db n total (get_hash_range db t)

  -- `AnnounceRange`
  unfoldable pub announce_range : Config → ℤ → ℕ → Tables → List Str × Tables
  unfolding announce_in get_hash_range
  announce_range conf (negsuc n) total t = ([], t)
  announce_range conf (pos zero) total t = ([], t)
  announce_range conf (pos (suc n)) total t = announce_from conf.hash_range conf.db (suc n) total t

  -- `OnMembershipChange`, of the node with this name.
  unfoldable pub on_membership_change : Config → Str → List Member → Tables → List Str × Tables
  unfolding membership_change announce_range
  on_membership_change conf name members t =
      let (n, total) = membership_change name members in announce_range conf n total t
