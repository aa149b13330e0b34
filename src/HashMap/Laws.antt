-- ===== src/HashMap/Laws.antt =====
-- The laws of the map's operations.
use jit_streamer_eb.Prelude.{
  none, some, String, [], ◌∷◌, str_eq, if◌then◌else◌, ◌≡◌, eq_iff, arith, ◌⊎◌, inl, inr, Bool-cases,
}
use jit_streamer_eb.HashMap.{HashMap, get, remove, insert, HasUniqueKeys}

module _ {ℓ} {V : Type ℓ} where
  pub get-remove :
      (k j : String) (m : HashMap V) → get j (remove k m) ≡ (if str_eq k j then none else get j m)
  unfolding get remove
  get-remove k j [] = ground arith
  get-remove k j ((i, v) ∷ m) = ground (arith, get-remove k j m, eq_iff i k, eq_iff i j, eq_iff k j)

  pub get-insert :
      (k j : String) (v : V) (m : HashMap V)
      → get j (insert k v m) ≡ (if str_eq k j then some v else get j m)
  unfolding get insert
  get-insert k j v m = ground (arith, get-remove k j m)

  pub get-insert_self : (k : String) (v : V) (m : HashMap V) → get k (insert k v m) ≡ some v
  unfolding get insert
  get-insert_self k v m = ground (arith, eq_iff k k)

  pub remove-HasUniqueKeys :
      (k : String) (m : HashMap V) → HasUniqueKeys m → HasUniqueKeys (remove k m)
  unfolding remove
  remove-HasUniqueKeys k [] u = tt
  remove-HasUniqueKeys k ((j, v) ∷ m) u = ground (arith, remove-HasUniqueKeys k m, get-remove k j m)

  pub insert-HasUniqueKeys :
      (k : String) (v : V) (m : HashMap V) → HasUniqueKeys m → HasUniqueKeys (insert k v m)
  unfolding insert
  insert-HasUniqueKeys k v m u =
      ground (arith, remove-HasUniqueKeys k m, get-remove k k m, eq_iff k k)

  -- Where a value that is found comes from.
  pub insert-cases :
      (k j : String) (v w : V) (m : HashMap V)
      → get j (insert k v m) ≡ some w
      → ((k ≡ j) × (v ≡ w)) ⊎ (get j m ≡ some w)
  insert-cases k j v w m h = elim (Bool-cases (str_eq k j)) [
    | inl e ↦ inl ((eq_iff k j).0 e, ground (arith, get-insert k j v m))
    | inr e ↦ inr (ground (arith, get-insert k j v m))
  ]

  pub remove-cases :
      (k j : String) (w : V) (m : HashMap V) → get j (remove k m) ≡ some w → get j m ≡ some w
  remove-cases k j w m h = ground (arith, get-remove k j m)

pub ruleset map_laws = (get-remove, get-insert)
