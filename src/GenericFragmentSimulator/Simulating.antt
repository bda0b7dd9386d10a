-- ===== src/GenericFragmentSimulator/Simulating.antt =====
-- The events of GenericFragmentSimulator of artdaq/DAQdata/GenericFragmentSimulator_generator.cc.
use fnal_artdaq.Base.{
  ℕ, zero, suc, ◌+◌, ◌%◌, ◌<◌, ◌≡◌, ◌⊎◌, inl, inr, Bool-cases, refl, ap, sym, subst, ◌∙◌, List, [],
  ◌∷◌, true, ok, All, replicate, length, length-replicate, arith, mod-eq_of_lt,
}
use fnal_artdaq.ArtdaqCore.{ArtdaqCore}
use fnal_artdaq.FragCounter.{size_t_mod}
use fnal_artdaq.GenericFragmentSimulator.{
  Simulation, GenericFragmentSimulator, ContentSelector, empty, frag_id, random, dead_beef, unknown,
  dead_beef_word, generate_fragment_size, random_words, fill, get_next_frag, frag_loop,
  get_next_frags,
}

module _ {F E R : Type 0} (core : ArtdaqCore F E) (sim : Simulation core R) where
  -- The selections that have a name.
  abbrev pub IsNamed : ContentSelector → Type 0
  IsNamed (unknown byte) = ⊥
  IsNamed c = Unit

  -- The words that a selection fills a payload with, but for the random ones.
  abbrev pub HasContent : ContentSelector → ℕ → List ℕ → Type 0
  HasContent empty id w = All (λ x. x ≡ 0) w
  HasContent frag_id id w = All (λ x. x ≡ id) w
  HasContent random id w = Unit
  HasContent dead_beef id w = All (λ x. x ≡ dead_beef_word) w
  HasContent (unknown byte) id w = ⊥

  -- A fragment of an event for an ID.
  abbrev pub IsOf : GenericFragmentSimulator R → ℕ → ℕ → F → Type 0
  IsOf g event id f =
      (core.sequence_id f ≡ event)
      × (core.fragment_id f ≡ id)
      × HasContent g.content_selection id (sim.payload f)
      × ((g.want_random_payload_size ≡ true) ⊎ (length (sim.payload f) ≡ g.payload_size_spec))

  -- One fragment for each ID, in the same order.
  abbrev pub OnePerId : GenericFragmentSimulator R → ℕ → List ℕ → List F → Type 0
  OnePerId g event [] [] = Unit {0}
  OnePerId g event (id ∷ ids) (f ∷ fs) = IsOf g event id f × OnePerId g event ids fs
  OnePerId g event [] (f ∷ fs) = ⊥
  OnePerId g event (id ∷ ids) [] = ⊥

  -- The same generator, but for the engine.
  abbrev pub with_engine : GenericFragmentSimulator R → R → GenericFragmentSimulator R
  with_engine g r = record g { engine = r }

  replicate-All : (n x : ℕ) → All (λ y. y ≡ x) (replicate n x)
  replicate-All zero x = tt
  replicate-All (suc n) x = (refl, replicate-All n x)

  length-random_words : (n : ℕ) (r : R) → length (random_words core sim n r).0 ≡ n
  unfolding random_words
  length-random_words zero r = refl
  length-random_words (suc n) r = ap suc (length-random_words n (sim.draw_word r).1)

  -- A payload of the right size and content.
  abbrev pub Fills : ContentSelector → ℕ → ℕ → R → Type 0
  Fills c n id r =
      (w : List ℕ) × ((s : R) × (fill core sim c n id r ≡ ok (w, s))
        × (length w ≡ n)
        × HasContent c id w)

  pub fill-Fills : (c : ContentSelector) (n id : ℕ) (r : R) → IsNamed c → Fills c n id r
  unfolding fill
  fill-Fills empty n id r named = (_, (_, refl, length-replicate n 0, replicate-All n 0))
  fill-Fills frag_id n id r named = (_, (_, refl, length-replicate n id, replicate-All n id))
  fill-Fills random n id r named = (_, (_, refl, length-random_words n r, tt))
  fill-Fills dead_beef n id r named =
      (_, (_, refl, length-replicate n dead_beef_word, replicate-All n dead_beef_word))
  fill-Fills (unknown byte) n id r named = absurd named

  size_spec :
      (g : GenericFragmentSimulator R)
      → (g.want_random_payload_size ≡ true)
        ⊎ ((generate_fragment_size core sim g).0 ≡ g.payload_size_spec)
  unfolding generate_fragment_size
  size_spec g = elim (Bool-cases g.want_random_payload_size) [
    | inl e ↦ inl e
    | inr e ↦ inr (rw e refl)
  ]

  get_next_frag-IsOf :
      (g : GenericFragmentSimulator R) (event id : ℕ)
      → IsNamed g.content_selection
      → event < sim.sequence_id_limit
      → id < sim.fragment_id_mod
      → (f : F) × ((r : R) × (get_next_frag core sim event id g ≡ ok (f, with_engine g r))
          × IsOf g event id f)
  unfolding get_next_frag
  get_next_frag-IsOf g event id named low fits =
      let (w, (s, e, count, content)) =
        fill-Fills g.content_selection (generate_fragment_size core sim g).0 id
          (generate_fragment_size core sim g).1 named in
      (
        sim.make event id w,
        (
          s,
          rw e refl,
          (
            sim.sequence_id-make event id w low,
            sim.fragment_id-make event id w fits,
            subst (HasContent g.content_selection id) (sym (sim.payload-make event id w)) content,
            elim (size_spec g) [
              | inl e ↦ inl e
              | inr e ↦ inr (ap (λ l. length l) (sim.payload-make event id w) ∙ count ∙ e)
            ],
          ),
        ),
      )

  frag_loop-OnePerId :
      (event : ℕ) (ids : List ℕ) (g : GenericFragmentSimulator R)
      → IsNamed g.content_selection
      → event < sim.sequence_id_limit
      → All (λ id. id < sim.fragment_id_mod) ids
      → (fs : List F) × ((r : R) × (frag_loop core sim event ids g ≡ ok (fs, with_engine g r))
          × OnePerId g event ids fs)
  unfolding frag_loop
  frag_loop-OnePerId event [] g named low fit = ([], (g.engine, refl, tt))
  frag_loop-OnePerId event (id ∷ ids) g named low fit =
      let (f, (r, e, is_of)) = get_next_frag-IsOf g event id named low fit.0 in
      let (fs, (s, rest, others)) =
        frag_loop-OnePerId event ids (with_engine g r) named low fit.1 in
      (f ∷ fs, (s, rw (e, rest) refl, (is_of, others)))

  -- For a generator whose selection has a name and whose fragment IDs a fragment has room for, and
  -- an event number that a fragment has room for: a call of `getNext_` returns true and gives the
  -- next event, one fragment for each ID of the generator in their order, each with the number of
  -- the event and with its ID, filled as the selection says (zeros, the ID, any words, or the word
  -- 0xDEADBEEFDEADBEEF), of the size of the configuration unless random sizes are wanted; nothing
  -- of the generator changes but the event number, by one, and the random engine.
  pub get_next_frags-OnePerId :
      (g : GenericFragmentSimulator R)
      → IsNamed g.content_selection
      → g.current_event_num + 1 < sim.sequence_id_limit
      → All (λ id. id < sim.fragment_id_mod) g.fragment_ids
      → (fs : List F) × ((r : R) × (get_next_frags core sim g
            ≡ ok (true, fs, record g { current_event_num = g.current_event_num + 1; engine = r }))
          × OnePerId g (g.current_event_num + 1) g.fragment_ids fs)
  unfolding get_next_frags
  get_next_frags-OnePerId g named low fit =
      let wraps : (g.current_event_num + 1) % size_t_mod ≡ g.current_event_num + 1 =
        mod-eq_of_lt (omega (arith, low, sim.limit-le)) in
      let (fs, (r, e, each)) =
        frag_loop-OnePerId (g.current_event_num + 1) g.fragment_ids
          (record g { current_event_num = g.current_event_num + 1 }) named low fit in
      (fs, (r, rw (wraps, e) refl, each))
