-- ===== src/GenericFragmentSimulator/Throttling.antt =====
-- GenericFragmentSimulator of artdaq/DAQdata/GenericFragmentSimulator_generator.cc as a generator of
-- tools/genToArt.cc.
use fnal_artdaq.Base.{
  ℕ, zero, suc, ◌+◌, ◌%◌, ◌≤◌, ◌<◌, ◌≡◌, ◌≢◌, refl, sym, subst, ap, List, [], ◌∷◌, map, ok, All,
  length, arith, mod-eq_of_lt, value_or,
}
use fnal_artdaq.ArtdaqCore.{ArtdaqCore}
use fnal_artdaq.FragCounter.{size_t_mod}
use fnal_artdaq.GenToArt.Throttled.{FragmentGenerator}
use fnal_artdaq.GenToArt.Filing.{Rising}
use fnal_artdaq.GenToArt.Feeding.{Regular}
use fnal_artdaq.GenericFragmentSimulator.{
  Simulation, GenericFragmentSimulator, Settings, content_selector, consecutive_ids, new,
  generate_fragment_size, get_next_frag, frag_loop, get_next_frags,
}
use fnal_artdaq.GenericFragmentSimulator.Simulating.{IsNamed, fill-Fills, with_engine}

module _ {F E R : Type 0} (core : ArtdaqCore F E) (sim : Simulation core R) where
  -- The generator with its virtual functions.
  abbrev pub simulator : FragmentGenerator (GenericFragmentSimulator R) F
  simulator = record { get_next = get_next_frags core sim; fragment_ids = λ g. g.fragment_ids }

  -- A generator that can fill its fragments, with rising, valid fragment IDs, at least one.
  pub record IsUsable (g : GenericFragmentSimulator R) : Type 0 where
    pub named : IsNamed core sim g.content_selection
    pub rising : Rising 0 g.fragment_ids
    pub some_ids : 0 < length g.fragment_ids
    pub fit : All (λ id. id < sim.fragment_id_mod) g.fragment_ids
    pub valid : All (λ id. id ≢ core.invalid_fragment_id) g.fragment_ids

  frag_loop-ids :
      (event : ℕ) (ids : List ℕ) (g : GenericFragmentSimulator R)
      → IsNamed core sim g.content_selection
      → All (λ id. id < sim.fragment_id_mod) ids
      → (fs : List F) × ((r : R) × (frag_loop core sim event ids g
            ≡ ok (fs, with_engine core sim g r))
          × (map core.fragment_id fs ≡ ids))
  unfolding frag_loop get_next_frag
  frag_loop-ids event [] g named fit = ([], (g.engine, refl, refl))
  frag_loop-ids event (id ∷ ids) g named fit =
      let (w, (s, e, count, content)) =
        fill-Fills core sim g.content_selection (generate_fragment_size core sim g).0 id
          (generate_fragment_size core sim g).1 named in
      let (fs, (t, loop, same)) = frag_loop-ids event ids (with_engine core sim g s) named fit.1 in
      (
        sim.make event id w ∷ fs,
        (t, rw (e, loop) refl, λ i. sim.fragment_id-make event id w fit.0 i ∷ same i),
      )

  pub simulator-Regular : Regular core simulator IsUsable
  unfolding get_next_frags
  simulator-Regular = record {
    gives = λ g usable.
        let event = (g.current_event_num + 1) % size_t_mod in
        let (fs, (r, e, ids)) =
          frag_loop-ids event g.fragment_ids (record g { current_event_num = event }) usable.named
            usable.fit in
        (
          fs,
          (
            record g { current_event_num = event; engine = r },
            rw e refl,
            ids,
            refl,
            record {
              named = usable.named;
              rising = usable.rising;
              some_ids = usable.some_ids;
              fit = usable.fit;
              valid = usable.valid;
            },
          ),
        );
    rises = λ g usable. usable.rising;
    some_ids = λ g usable. usable.some_ids;
    valid_ids = λ g usable. usable.valid;
  }

  consecutive_ids-Rising :
      (n start b : ℕ)
      → b ≤ start
      → start + n ≤ sim.fragment_id_mod
      → Rising b (consecutive_ids core sim n start)
  unfolding consecutive_ids
  consecutive_ids-Rising zero start b le room = tt
  consecutive_ids-Rising (suc zero) start b le room = (le, tt)
  consecutive_ids-Rising (suc (suc n)) start b le room =
      let wraps : (start + 1) % sim.fragment_id_mod ≡ start + 1 =
        mod-eq_of_lt (omega (arith, room)) in
      (
        le,
        subst (λ k. Rising (suc start) (consecutive_ids core sim (suc n) k)) (sym wraps)
            (consecutive_ids-Rising (suc n) (start + 1) (suc start) (omega arith)
              (omega (arith, room))),
      )

  consecutive_ids-All :
      (P : ℕ → Type 0) (n start : ℕ)
      → start + n ≤ sim.fragment_id_mod
      → ((k : ℕ) → start ≤ k → k < start + n → P k)
      → All P (consecutive_ids core sim n start)
  unfolding consecutive_ids
  consecutive_ids-All P zero start room holds = tt
  consecutive_ids-All P (suc zero) start room holds = (holds start (omega arith) (omega arith), tt)
  consecutive_ids-All P (suc (suc n)) start room holds =
      let wraps : (start + 1) % sim.fragment_id_mod ≡ start + 1 =
        mod-eq_of_lt (omega (arith, room)) in
      (
        holds start (omega arith) (omega arith),
        subst (λ k. All P (consecutive_ids core sim (suc n) k)) (sym wraps)
            (consecutive_ids-All P (suc n) (start + 1) (omega (arith, room))
              λ k low high. holds k (omega (arith, low)) (omega (arith, high))),
      )

  length-consecutive_ids : (n start : ℕ) → length (consecutive_ids core sim n start) ≡ n
  unfolding consecutive_ids
  length-consecutive_ids zero start = refl
  length-consecutive_ids (suc n) start =
      ap suc (length-consecutive_ids n ((start + 1) % sim.fragment_id_mod))

  -- What the constructor makes, if the IDs that it counts out exist and are valid.
  pub new-IsUsable :
      (ps : Settings R) (n start : ℕ)
      → value_or ps.fragments_per_event 5 ≡ n
      → value_or ps.starting_fragment_id 0 ≡ start
      → IsNamed core sim (content_selector (value_or ps.content_selection 0))
      → 0 < n
      → start + n ≤ sim.fragment_id_mod
      → start + n ≤ core.invalid_fragment_id
      → IsUsable (new core sim ps)
  unfolding new
  new-IsUsable ps n start has_n has_start named some room valid = record {
    named = named;
    rising = rw (has_n, has_start) (consecutive_ids-Rising n start 0 (omega arith) room);
    some_ids = rw (has_n, has_start, length-consecutive_ids n start) some;
    fit =
        rw (has_n, has_start)
          (consecutive_ids-All (λ id. id < sim.fragment_id_mod) n start room
            λ k low high. omega (arith, high, room));
    valid =
        rw (has_n, has_start)
          (consecutive_ids-All (λ id. id ≢ core.invalid_fragment_id) n start room
            λ k low high. omega (arith, high, valid));
  }
