-- ===== src/Cluster.antt =====
-- cluster/cluster.go: which interval of the hashes a node takes, from the members that it sees. Membership
-- itself is the library serf's; the timer of `listen`, which gathers changes, is left out.
pub mod Intervals
use reflector_go.Order.{sort_strings}
use reflector_go.Prelude.Int.{ℤ, pos, negsuc}
use reflector_go.Prelude.{
  List, Str, map, Bool, ℕ, keep_if, length, ◌∷◌, suc, if◌then◌else◌, str_eq, [],
}

-- `serf.Member`, with the test for `serf.StatusAlive`.
pub record Member : Type 0 where
  pub name : Str
  pub is_alive : Bool

-- `getAliveMembers`
abbrev pub get_alive_members : List Member → List Member
get_alive_members members = keep_if (λ (m : Member). m.is_alive) members

-- The loop of `getHashInterval`, which returns -1 behind it.
unfoldable pub interval_loop : Str → List Str → ℕ → ℤ
interval_loop my_name [] i = negsuc 0
interval_loop my_name (n ∷ names) i =
    let rest = interval_loop my_name names (suc i) in if str_eq n my_name then pos i else rest

abbrev pub names_of : List Member → List Str
names_of members = map (λ (m : Member). m.name) members

-- `getHashInterval`
unfoldable pub get_hash_interval : Str → List Member → ℤ
unfolding interval_loop
get_hash_interval my_name members = interval_loop my_name (sort_strings (names_of members)) 1

-- What `listen` passes to `OnMembershipChange`.
unfoldable pub membership_change : Str → List Member → ℤ × ℕ
unfolding get_hash_interval
membership_change name members =
    let alive = get_alive_members members in (get_hash_interval name alive, length alive)
