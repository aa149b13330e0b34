-- ===== src/HashMap.antt =====
-- `HashMap<String, V>` of the standard library as an association list. The order in which a
-- `HashMap` is iterated is not specified; nothing here that is proved rests on it.
pub mod Laws
use jit_streamer_eb.Prelude.{
  ℕ, suc, Bool, Option, none, some, String, List, [], ◌∷◌, str_eq, if◌then◌else◌, ◌+◌, ◌≡◌,
}

abbrev pub HashMap {ℓ} : Type ℓ → Type ℓ
HashMap V = List (String × V)

module _ {ℓ} {V : Type ℓ} where
  -- `map.get(k).cloned()`
  unfoldable pub get : String → HashMap V → Option V
  get k [] = none
  get k ((j, v) ∷ m) = if str_eq j k then some v else get k m

  -- The map after `map.remove(k)`; what it returns is `get k`.
  unfoldable pub remove : String → HashMap V → HashMap V
  remove k [] = []
  remove k ((j, v) ∷ m) = let rest = remove k m in if str_eq j k then rest else (j, v) ∷ rest

  -- The map after `map.insert(k, v)`; what it returns is `get k`.
  unfoldable pub insert : String → V → HashMap V → HashMap V
  unfolding remove
  insert k v m = (k, v) ∷ remove k m

  -- `map.keys()`
  abbrev pub keys : HashMap V → List String
  keys [] = []
  keys ((k, v) ∷ m) = k ∷ keys m

  -- `map.values()`
  abbrev pub values : HashMap V → List V
  values [] = []
  values ((k, v) ∷ m) = v ∷ values m

  -- No key stands in the map twice: what stands behind an entry has another key.
  abbrev pub HasUniqueKeys : HashMap V → Type ℓ
  HasUniqueKeys [] = Unit
  HasUniqueKeys ((k, v) ∷ m) = (get k m ≡ none) × HasUniqueKeys m
