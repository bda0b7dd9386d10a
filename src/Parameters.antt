-- ===== src/Parameters.antt =====
-- What the repository uses of fhicl-cpp, which is not part of it: the lookups of a
-- `fhicl::ParameterSet`; and how the `initialize` functions read their parameters, one after the
-- other, with an early return.
pub mod Keeping
use Prim.Native.String.{String}
use fnal_artdaq.Base.{ℕ, ◌≡◌, Bool, true, false, Outcome, ok, fault, configuration}
use fnal_artdaq.Generator.{ℤ}

-- `get<T>(key)` throws if the key is missing or its value is not a `T`.
pub data Lookup (A : Type 0) : Type 0 where
  missing mismatched : Lookup A
  found : A → Lookup A

pub record ParameterSets (P : Type 0) : Type 0 where
  pub get_pset : String → P → Lookup P
  pub get_size : String → P → Lookup ℕ
  pub get_bool : String → P → Lookup Bool
  pub get_string : String → P → Lookup String
  pub get_int : String → P → Lookup ℤ
  pub erase : String → P → P
  pub to_string : P → String
  pub same : P → P → Bool
  pub same_refl : (p : P) → same p p ≡ true

-- Where a function that reads parameters into its object stands.
pub data Progress (S A : Type 0) : Type 0 where
  threw : Progress S A
  returned : S → Progress S A
  going : A → S → Progress S A

abbrev pub Reading : Type 0 → Type 0 → Type 0
Reading S A = S → Progress S A

module _ {S A B : Type 0} where
  infixl 5 ◌>>=◌
  unfoldable pub ◌>>=◌ : Reading S A → (A → Reading S B) → Reading S B
  first >>= rest =
      λ s. elim (first s) [ threw ↦ threw | returned t ↦ returned t | going a t ↦ rest a t ]

module _ {S A : Type 0} where
  -- `try { x = pset.get<T>(key); } catch (...) { return false; }`
  abbrev pub demand : Lookup A → Reading S A
  demand (found a) = λ s. going a s
  demand _ = λ s. returned s

  -- `x = pset.get<T>(key, otherwise);`
  abbrev pub optional : A → Lookup A → Reading S A
  optional otherwise missing = λ s. going otherwise s
  optional otherwise mismatched = λ s. threw
  optional otherwise (found a) = λ s. going a s

-- The end of a part, with its result.
abbrev pub give : {S A : Type 0} → A → Reading S A
give a = λ s. going a s

-- An assignment to members.
abbrev pub assign : {S : Type 0} → (S → S) → Reading S (Unit {0})
assign change = λ s. going tt (change s)

-- What the caller gets: `false` after an early return, `true` at the end.
abbrev pub answer : {S : Type 0} → Progress S (Unit {0}) → Outcome (S × Bool)
answer threw = fault configuration
answer (returned s) = ok (s, false)
answer (going _ s) = ok (s, true)
