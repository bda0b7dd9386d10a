-- ===== src/MetricManager/Again.antt =====
-- What a second `initialize` does in artdaq/DAQrate/MetricManager.cc.
use Prim.Native.String.{String}
use fnal_artdaq.Base.{
  ◌≡◌, ◌⊎◌, inl, inr, refl, List, [], ◌∷◌, Bool, true, false, Option, none, some, ok, fault,
  null_pointer, ◌>>=◌,
}
use fnal_artdaq.Parameters.{ParameterSets}
use fnal_artdaq.MetricManager.{
  MetricPlugins, MetricManager, call_each, do_start, do_stop, shutdown, initialize,
}

call_each-cases :
    {M : Type 0} (f : M → Option M) (l : List (Option M))
    → (call_each f l ≡ fault null_pointer) ⊎ ((l' : List (Option M)) × (call_each f l ≡ ok l'))
unfolding call_each
call_each-cases f [] = inr ([], refl)
call_each-cases f (none ∷ l) = inl refl
call_each-cases f (some p ∷ l) = elim (call_each-cases f l) [
  | inl bad ↦ inl (rw bad refl)
  | inr (l', good) ↦ inr (f p ∷ l', rw good refl)
]

-- A manager that is initialized and has a plugin.
abbrev active : {M : Type 0} → Option M → List (Option M) → Bool → MetricManager M
active p more running = record { metric_plugins = p ∷ more; initialized = true; running = running }

module _ {P M V : Type 0} (plugins : MetricPlugins P M V) where
  -- The pointers stay in the vector.
  shutdown-cases :
      (p : Option M) (more : List (Option M)) (running : Bool)
      → (shutdown plugins (active p more running) ≡ fault null_pointer)
        ⊎ ((rest : List (Option M)) × (shutdown plugins (active p more running)
              ≡ ok (record { metric_plugins = none ∷ rest; initialized = false; running = false })))
  unfolding shutdown do_stop call_each
  shutdown-cases none more true = inl refl
  shutdown-cases none more false = inl refl
  shutdown-cases (some p) more false = elim (call_each-cases (λ q. none) more) [
    | inl bad ↦ inl (rw bad refl)
    | inr (rest, good) ↦ inr (rest, rw good refl)
  ]
  shutdown-cases (some p) more true =
      elim (call_each-cases (λ q. some (plugins.stop_metrics q)) more) [
        | inl bad ↦ inl (rw bad refl)
        | inr (stopped, good) ↦ elim (call_each-cases (λ q. none) stopped) [
          | inl bad ↦ inl (rw (good, bad) refl)
          | inr (rest, fine) ↦ inr (rest, rw (good, fine) refl)
        ]
      ]

module _ {P M V : Type 0} (plugins : MetricPlugins P M V) (sets : ParameterSets P)
    (keys : P → List String) (pset : P) where
  -- If a manager that is initialized has a plugin, whatever else its state is, then `initialize` and
  -- `do_start` after it call a plugin through a null pointer: the pointers that a shutdown has reset
  -- are not taken out of the vector.
  pub initialize-do_start :
      (p : Option M) (more : List (Option M)) (running : Bool)
      → (initialize plugins sets keys pset
            (record { metric_plugins = p ∷ more; initialized = true; running = running })
          >>= do_start plugins)
        ≡ fault null_pointer
  unfolding initialize do_start call_each
  initialize-do_start p more running = elim (shutdown-cases plugins p more running) [
    | inl bad ↦ rw bad refl
    | inr (rest, good) ↦ rw good refl
  ]
