-- ===== src/Parameters/Keeping.antt =====
-- What the reading of parameters leaves true of the object, on every way out of it.
use fnal_artdaq.Base.{◌≡◌, if◌then◌else◌, true, false, Bool, Ends, ended, faulted}
use fnal_artdaq.Parameters.{
  give, Lookup, missing, mismatched, found, Progress, threw, returned, going, Reading, ◌>>=◌,
  demand, optional, assign, answer,
}

module _ {S A : Type 0} (Q : S → Type 0) where
  abbrev pub Stays : Progress S A → Type 0
  Stays threw = Unit
  Stays (returned s) = Q s
  Stays (going a s) = Q s

  pub record Keeps (r : Reading S A) : Type 0 where
    pub at : (s : S) → Q s → Stays (r s)

module _ {S A B : Type 0} {Q : S → Type 0} where
  pub Keeps-bind :
      {first : Reading S A} {rest : A → Reading S B}
      → Keeps Q first
      → ((a : A) → Keeps Q (rest a))
      → Keeps Q (first >>= rest)
  unfolding ◌>>=◌
  Keeps-bind {first = first} {rest = rest} k l = record { at = λ s q. follow (first s) (k.at s q) }
    where
      follow :
          (p : Progress S A)
          → Stays Q p
          → Stays Q (elim p [ threw ↦ threw | returned t ↦ returned t | going a t ↦ rest a t ])
      follow threw q = tt
      follow (returned t) q = q
      follow (going a t) q = (l a).at t q

module _ {S A : Type 0} {Q : S → Type 0} where
  pub Keeps-demand : (l : Lookup A) → Keeps Q (demand l)
  Keeps-demand missing = record { at = λ s q. q }
  Keeps-demand mismatched = record { at = λ s q. q }
  Keeps-demand (found a) = record { at = λ s q. q }

  pub Keeps-give : (a : A) → Keeps Q (give a)
  Keeps-give a = record { at = λ s q. q }

  pub Keeps-optional : (a : A) (l : Lookup A) → Keeps Q (optional a l)
  Keeps-optional a missing = record { at = λ s q. q }
  Keeps-optional a mismatched = record { at = λ s q. tt }
  Keeps-optional a (found b) = record { at = λ s q. q }

module _ {S A : Type 0} (Q : S → Type 0) (x y : Progress S A) where
  pub Stays-if : (b : Bool) → Stays Q x → Stays Q y → Stays Q (if b then x else y)
  Stays-if true p q = p
  Stays-if false p q = q

  pub Stays-if_true : (b : Bool) → b ≡ true → Stays Q x → Stays Q (if b then x else y)
  Stays-if_true b e p = rw e p

module _ {S : Type 0} (Q : S → Type 0) where
  abbrev pub Answered : S × Bool → Type 0
  Answered (s, good) = Q s

module _ {S : Type 0} {Q : S → Type 0} where
  pub Keeps-assign : {change : S → S} → ((s : S) → Q s → Q (change s)) → Keeps Q (assign change)
  Keeps-assign keeps = record { at = keeps }

  pub Keeps-answer :
      {r : Reading S (Unit {0})} → Keeps Q r → (s : S) → Q s → Ends (Answered Q) (answer (r s))
  Keeps-answer {r = r} k s q = follow (r s) (k.at s q)
    where
      follow : (p : Progress S (Unit {0})) → Stays Q p → Ends (Answered Q) (answer p)
      follow threw q = faulted
      follow (returned t) q = ended q
      follow (going a t) q = ended q

pub ruleset keeps_rules = (Keeps-give, Keeps-bind, Keeps-demand, Keeps-optional, Keeps-assign)
