-- ===== src/OrderedMap/Laws.antt =====
-- The laws of the map. `Above b m`: the keys of `m` rise, and the first is at least `b`.
use fnal_artdaq.Base.{
  ℕ, suc, ◌+◌, ◌≤◌, ◌<◌, ◌≡◌, refl, subst, inl, inr, Bool-cases, List, [], ◌∷◌, ◌++◌, Option, none,
  some, ltb, ◌==◌, if◌then◌else◌, arith, All,
}
use fnal_artdaq.OrderedMap.{find, put, erase}

module _ {V : Type 0} where
  abbrev pub Above : ℕ → List (ℕ × V) → Type 0
  Above b [] = Unit {0}
  Above b ((k, v) ∷ m) = (b ≤ k) × Above (suc k) m

  pub Above-mono : (b c : ℕ) (m : List (ℕ × V)) → c ≤ b → Above b m → Above c m
  Above-mono b c [] h a = tt
  Above-mono b c ((k, v) ∷ m) h a = (omega arith, a.1)

  pub find-Above : (k b : ℕ) (m : List (ℕ × V)) → k < b → Above b m → find k m ≡ none
  unfolding find
  find-Above k b [] h a = refl
  find-Above k b ((j, v) ∷ m) h a = ground arith

  pub put-Above :
      (k : ℕ) (v : V) (b : ℕ) (m : List (ℕ × V)) → b ≤ k → Above b m → Above b (put k v m)
  unfolding put
  put-Above k v b [] h a = (h, tt)
  put-Above k v b ((j, w) ∷ m) h a =
      ground (arith, put-Above k v (suc j) m, Above-mono (suc j) (suc k) m)

  pub erase-Above : (k b : ℕ) (m : List (ℕ × V)) → Above b m → Above b (erase k m)
  unfolding erase
  erase-Above k b [] a = tt
  erase-Above k b ((j, w) ∷ m) a = ground (arith, erase-Above k (suc j) m, Above-mono (suc j) b m)

  pub find-put :
      (k j : ℕ) (v : V) (b : ℕ) (m : List (ℕ × V))
      → Above b m
      → find j (put k v m) ≡ (if j == k then some v else find j m)
  unfolding find put
  find-put k j v b [] a = ground arith
  find-put k j v b ((i, w) ∷ m) a = ground (arith, find-put k j v (suc i) m, find-Above j (suc i) m)

  pub find-erase :
      (k j b : ℕ) (m : List (ℕ × V))
      → Above b m
      → find j (erase k m) ≡ (if j == k then none else find j m)
  unfolding find erase
  find-erase k j b [] a = ground arith
  find-erase k j b ((i, w) ∷ m) a = ground (arith, find-erase k j (suc i) m, find-Above j (suc i) m)

  -- The entry under a key is replaced, or a new one is added: a sum over the entries.
  abbrev pub total : (V → ℕ) → List (ℕ × V) → ℕ
  total w [] = 0
  total w ((k, v) ∷ m) = w v + total w m

  abbrev pub weight? : (V → ℕ) → Option V → ℕ
  weight? w none = 0
  weight? w (some v) = w v

  pub total-put :
      (w : V → ℕ) (k : ℕ) (v : V) (m : List (ℕ × V))
      → total w (put k v m) + weight? w (find k m) ≡ total w m + w v
  unfolding find put
  total-put w k v [] = ground arith
  total-put w k v ((i, x) ∷ m) = ground (arith, total-put w k v m)

  pub total-erase :
      (w : V → ℕ) (k : ℕ) (m : List (ℕ × V))
      → total w (erase k m) + weight? w (find k m) ≡ total w m
  unfolding find erase
  total-erase w k [] = ground arith
  total-erase w k ((i, x) ∷ m) = ground (arith, total-erase w k m)

  pub total-append : (w : V → ℕ) (m n : List (ℕ × V)) → total w (m ++ n) ≡ total w m + total w n
  total-append w [] n = omega arith
  total-append w ((k, v) ∷ m) n = omega (arith, total-append w m n)

  -- A predicate on the entries.
  pub put-All :
      (P : ℕ × V → Type 0) (k : ℕ) (v : V) (m : List (ℕ × V))
      → P (k, v)
      → All P m
      → All P (put k v m)
  unfolding put
  put-All P k v [] p a = (p, tt)
  put-All P k v ((i, x) ∷ m) p a = ground (arith, put-All P k v m p)

  pub erase-All : (P : ℕ × V → Type 0) (k : ℕ) (m : List (ℕ × V)) → All P m → All P (erase k m)
  unfolding erase
  erase-All P k [] a = tt
  erase-All P k ((i, x) ∷ m) a = ground (arith, erase-All P k m)

  pub find-All :
      (P : ℕ × V → Type 0) (k : ℕ) {v : V} (m : List (ℕ × V))
      → All P m
      → find k m ≡ some v
      → P (k, v)
  unfolding find
  find-All P k [] a h = cc
  find-All P k {v} ((i, x) ∷ m) a h = elim (Bool-cases (ltb i k)) [
    | inl less ↦ find-All P k m a.1 (ground arith)
    | inr same ↦
        let e : i ≡ k = ground arith in
        let e' : x ≡ v = ground arith in subst P (λ t. (e t, e' t)) a.0
  ]
