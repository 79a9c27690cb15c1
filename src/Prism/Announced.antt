-- ===== src/Prism/Announced.antt =====
-- Which node announces which hash: prism, cluster and database together.
use reflector_go.Prism.{Config, on_membership_change}
use reflector_go.Cluster
use reflector_go.Prism
use reflector_go.Cluster.{Member, names_of, get_alive_members}
use reflector_go.Db.Tables.{Tables, BlobRow}
use reflector_go.Db.Ranges.{Range, in_range}
use reflector_go.Prelude.{Bool, List, Str, ℕ, any, ◌≤◌, ◌≡◌, str_eq, true}

-- What the splitting of a range promises: its hashes are in one of the parts, and in no two.
pub record IsSplitting (interval : ℕ → ℕ → Range → Range) : Type 0 where
  pub covers :
      (r : Range) (h : Str) (total : ℕ)
      → 1 ≤ total
      → in_range r h ≡ true
      → (n : ℕ) × (1 ≤ n) × (n ≤ total) × (in_range (interval n total r) h ≡ true)
  pub apart :
      (r : Range) (h : Str) (total n m : ℕ)
      → in_range (interval n total r) h ≡ true
      → in_range (interval m total r) h ≡ true
      → n ≡ m

-- Some row has this hash.
has_hash : List BlobRow → Str → Bool
has_hash rows h = any (λ (b : BlobRow). str_eq b.hash h) rows

module _ (interval : ℕ → ℕ → Range → Range) (conf : Config) (members : List Member)
    (t : Tables) where
  -- The hashes that the node with this name announces.
  abbrev pub announced_by : Str → List Str
  announced_by name = (on_membership_change interval conf name members t).0

  abbrev pub alive : List Str
  alive = names_of (get_alive_members members)
