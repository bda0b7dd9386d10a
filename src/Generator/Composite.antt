-- ===== src/Generator/Composite.antt =====
-- artdaq/Application/CompositeDriver.hh and CompositeDriver_generator.cc: a generator that has a
-- list of generators. The children share one type of derived state and its virtual functions.
use fnal_artdaq.Base.{
  ℕ, List, [], ◌∷◌, ◌++◌, Bool, true, false, ◌||◌, Option, none, some, Outcome, ok, configuration,
  require, ◌>>=◌, ◌>>◌, if◌then◌else◌, map,
}
use fnal_artdaq.Generator.{
  ℤ, Generator, Virtuals, get_next, start_cmd, stop_cmd, pause_cmd, resume_cmd,
}

-- A child is its entries of `generator_active_list_` and of `generator_list_`.
pub record Child (D : Type 0) : Type 0 where
  pub active : Bool
  pub generator : Generator D

-- The parameter sets `P`, and what the factory makes of one: `none` where it throws, and `some none`
-- where the result is not a CommandableFragmentGenerator.
pub record Factory (P D : Type 0) : Type 0 where
  pub daq : P → Option P
  pub fragment_receiver : P → Option P
  pub named : P → Bool
  pub make : P → Option (Option (Generator D))

-- `makeChildGenerator_`
unfoldable pub make_child_generator :
    {P D : Type 0} → Factory P D → P → List (Child D) → Bool × List (Child D)
make_child_generator factory ps children = elim (factory.daq ps) [
  | none ↦ (false, children)
  | some daq ↦ elim (factory.fragment_receiver daq) [
    | none ↦ (false, children)
    | some receiver ↦ elim (factory.named receiver) [
      | false ↦ (false, children)
      | true ↦ elim (factory.make receiver) [
        | none ↦ (false, children)
        | some made ↦ elim made [
          | none ↦ (false, children)
          | some generator ↦
              (true, children ++ (record { active = true; generator = generator }) ∷ [])
        ]
      ]
    ]
  ]
]

-- The constructor's loop over `generator_config_list`.
unfoldable pub make_children :
    {P D : Type 0} → Factory P D → List P → List (Child D) → Outcome (List (Child D))
make_children factory [] children = ok children
make_children factory (ps ∷ list) children =
    let made = make_child_generator factory ps children in
    require made.0 configuration >> make_children factory list made.1

-- `fragmentIDs`
unfoldable pub fragment_ids : {D : Type 0} → List (Child D) → List ℕ
fragment_ids [] = []
fragment_ids (c ∷ children) = c.generator.fragment_ids ++ fragment_ids children

abbrev pub activate : {D : Type 0} → Child D → Child D
activate c = record c { active = true }

-- A command to every child, from the first one on, or from the last one back.
unfoldable pub forwards :
    {D : Type 0} → (Generator D → Outcome (Generator D)) → List (Child D) → Outcome (List (Child D))
forwards command [] = ok []
forwards command (c ∷ children) = do
  g ← command c.generator
  rest ← forwards command children
  ok (record c { generator = g } ∷ rest)

unfoldable pub backwards :
    {D : Type 0} → (Generator D → Outcome (Generator D)) → List (Child D) → Outcome (List (Child D))
backwards command [] = ok []
backwards command (c ∷ children) = do
  rest ← backwards command children
  g ← command c.generator
  ok (record c { generator = g } ∷ rest)

module _ {D F : Type 0} (v : Virtuals D F) where
  unfoldable pub start : ℤ → ℕ → ℕ → List (Child D) → Outcome (List (Child D))
  start run timeout timestamp children =
      forwards (start_cmd v run timeout timestamp) (map activate children)

  unfoldable pub stop : ℕ → ℕ → List (Child D) → Outcome (List (Child D))
  stop timeout timestamp children = backwards (stop_cmd v timeout timestamp) children

  unfoldable pub pause : ℕ → ℕ → List (Child D) → Outcome (List (Child D))
  pause timeout timestamp children = backwards (pause_cmd v timeout timestamp) children

  unfoldable pub resume : ℕ → ℕ → List (Child D) → Outcome (List (Child D))
  resume timeout timestamp children =
      forwards (resume_cmd v timeout timestamp) (map activate children)

  -- `getNext_`: whether any child is active, the fragments, and the children.
  unfoldable pub get_next_ : List F → List (Child D) → Bool × List F × List (Child D)
  get_next_ frags [] = (false, frags, [])
  get_next_ frags (c ∷ children) =
      let asked = get_next v frags c.generator in
      let after = get_next_ asked.1 children in
      let skipped = get_next_ frags children in
      if c.active
      then (asked.0 || after.0, after.1, record { active = asked.0; generator = asked.2 } ∷ after.2)
      else (skipped.0, skipped.1, c ∷ skipped.2)
