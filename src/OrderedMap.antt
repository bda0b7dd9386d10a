-- ===== src/OrderedMap.antt =====
-- `std::map` with unsigned keys, as the list of its entries in the order of the keys.
pub mod Laws
use fnal_artdaq.Base.{ℕ, List, [], ◌∷◌, Option, none, some, ltb, ◌==◌, if◌then◌else◌}

module _ {V : Type 0} where
  -- `lower_bound` and the test that the key there is the key sought.
  unfoldable pub find : ℕ → List (ℕ × V) → Option V
  find k [] = none
  find k ((j, v) ∷ m) = if ltb j k then find k m else if ltb k j then none else some v

  -- The value under a key is set; a key that is absent is inserted at its place.
  unfoldable pub put : ℕ → V → List (ℕ × V) → List (ℕ × V)
  put k v [] = (k, v) ∷ []
  put k v ((j, w) ∷ m) =
      if ltb j k then (j, w) ∷ put k v m else if ltb k j then (k, v) ∷ (j, w) ∷ m else (k, v) ∷ m

  unfoldable pub erase : ℕ → List (ℕ × V) → List (ℕ × V)
  erase k [] = []
  erase k ((j, w) ∷ m) = if ltb j k then (j, w) ∷ erase k m else if ltb k j then (j, w) ∷ m else m
