-- ===== src/Commandable/Sound.antt =====
-- Applications of artdaq/Application/Commandable.cc whose guards leave them as they should be in a
-- state, whatever the guards answer, unless a call faults.
use Prim.Native.String.{String}
use fnal_artdaq.Base.{
  ◌≡◌, refl, subst, Bool, true, false, Outcome, ok, fault, if◌then◌else◌, Ends, ended,
}
use fnal_artdaq.Commandable.Machine.{State, ready, App, bad_transition}
use fnal_artdaq.Commandable.Guarded.{again, guarded, alive}

-- The next state by a guard's answer.
abbrev pub branch : {S : Type 0} → State → State → Bool × App (Outcome S) → State × App (Outcome S)
branch s t (good, a) = if good then (s, a) else (t, a)

module _ {S : Type 0} (IsSound : State → S → Type 0) where
  -- Unless a call has faulted, the application is as it should be in the state.
  abbrev pub IsSafe : State × App (Outcome S) → Type 0
  IsSafe (state, a) = elim a.members [ fault why ↦ Unit | ok m ↦ IsSound state m ]

  abbrev pub Goes : State → State → Bool × App S → Type 0
  Goes s t (good, a) = IsSound (if good then s else t) a.members

  again-IsSafe :
      (s t : State) (a : App (Outcome S)) (r : Outcome (Bool × App S))
      → Ends (Goes s t) r
      → IsSafe (branch s t (again a r))
  again-IsSafe s t a (fault why) g = tt
  again-IsSafe s t a (ok (true, b)) (ended g) = g
  again-IsSafe s t a (ok (false, b)) (ended g) = g

  pub guarded-IsSafe :
      (f : App S → Outcome (Bool × App S)) (s t : State) (a : App (Outcome S))
      → ((m : S) → a.members ≡ ok m → Ends (Goes s t) (f (alive m a)))
      → IsSafe (branch s t (guarded f a))
  unfolding guarded
  guarded-IsSafe f s t a = by_members a.members
    where
      by_members :
          (o : Outcome S)
          → ((m : S) → o ≡ ok m → Ends (Goes s t) (f (alive m a)))
          → IsSafe (
              branch s t
                (elim o [ fault why ↦ again a (fault why) | ok m ↦ again a (f (alive m a)) ]))
      by_members (fault why) goes = tt
      by_members (ok m) goes = again-IsSafe s t a (f (alive m a)) (goes m refl)

  -- The report of a bad transition is nothing that matters here.
  pub reported-IsSafe :
      (name : String) (s t : State) (r : Bool × App (Outcome S))
      → IsSafe (branch s t r)
      → IsSafe (if r.0 then (s, r.1) else (t, bad_transition name r.1))
  unfolding bad_transition
  reported-IsSafe name s t (true, a) safe = safe
  reported-IsSafe name s t (false, a) safe = safe

  -- Where both answers lead to the same state.
  pub ready-IsSafe :
      (r : Bool × App (Outcome S)) → IsSafe (branch ready ready r) → IsSafe (ready, r.1)
  ready-IsSafe (true, a) safe = safe
  ready-IsSafe (false, a) safe = safe

  pub members-IsSound :
      (state : State) (a : App (Outcome S)) {m : S}
      → IsSafe (state, a)
      → a.members ≡ ok m
      → IsSound state m
  members-IsSound state a safe e =
      subst (λ o. elim o [ fault why ↦ Unit | ok m ↦ IsSound state m ]) e safe
