-- ===== src/Commands/Params.antt =====
-- Which texts `diskCacheParams` accepts.
use reflector_go.Commands.{CacheParams, cache_managers, as_int, is_absolute}
use reflector_go.Order.{mem_str}
use reflector_go.Errors.{Result, ok}
use reflector_go.Prelude.{Str, ℕ, ◌++◌, ◌≡◌, ◌<◌, ◌∷◌, true}

-- The text of these parameters: a size that is not 0, an absolute path and a known manager.
pub record IsParams (parse_size : Str → Result ℕ) (size : Str) (p : CacheParams) : Type 0 where
  pub number : ℕ
  pub parsed : parse_size size ≡ ok number
  pub some_bytes : 0 < number
  pub as_size : p.size ≡ as_int number
  pub absolute : is_absolute p.path ≡ true
  pub known : mem_str p.manager cache_managers ≡ true

module _ (parse_size : Str → Result ℕ) where
  abbrev pub params_text : Str → CacheParams → Str
  params_text size p = size ++ (b':' ∷ (p.path ++ (b':' ∷ p.manager)))
