-- ===== src/GenToArt/Running.antt =====
-- A whole run of `process_data` of tools/genToArt.cc with generators that give, in each call, one
-- fragment of each of their IDs.
use fnal_artdaq.Base.{
  value_or, ℕ, suc, ◌+◌, ◌<◌, ◌≡◌, inl, refl, ap, sym, subst, ◌∙◌, List, [], ◌∷◌, ◌++◌, map, true,
  Bool, none, some, ok, if◌then◌else◌, length, All, arith, mod-eq_of_lt,
}
use fnal_artdaq.ArtdaqCore.{ArtdaqCore}
use fnal_artdaq.FragCounter.{size_t_mod}
use fnal_artdaq.OrderedMap.{find}
use fnal_artdaq.EventStore.{EventStore}
use fnal_artdaq.GenToArt.Throttled.{FragmentGenerator, ThrottledGenerator, throttle}
use fnal_artdaq.GenToArt.{Numbering, Options, make_generators, expected_frags, process_data}
use fnal_artdaq.GenToArt.Complete.{Feeds, Numbered}
use fnal_artdaq.GenToArt.Whole.{process_data-Made}
use fnal_artdaq.GenToArt.Feeding.{Regular, IsReady, total_ids, collect-Rounds}

module _ {G F E : Type 0} (core : ArtdaqCore F E) (numbers : Numbering core)
    (v : FragmentGenerator G F) (accepts : ℕ → Bool) (Fine : G → Type 0)
    (regular : Regular core v Fine) where
  abbrev Ready : ℕ → List (ThrottledGenerator G F) → Type 0
  Ready num gens =
      All (IsReady core v Fine regular) gens × (total_ids core v Fine regular gens ≡ num)

  Ready-Feeds : (num : ℕ) → 0 < num → Feeds core numbers v accepts 2 num (Ready num)
  Ready-Feeds num pos = record {
    some_frags = pos;
    feeds = λ gens ready.
        let (fs, (later, e, count, valid, same, ready')) =
          collect-Rounds core v Fine regular gens ready.0 in
        (fs, (later, e, count ∙ ready.1, valid, (ready', same ∙ ready.1)));
  }

  -- How many fragments an event of these generators has.
  abbrev pub frags_per_event : List G → ℕ
  frags_per_event [] = 0
  frags_per_event (g ∷ gs) = length (v.fragment_ids g) + frags_per_event gs

  make_generators-ok : (gs : List G) → make_generators v (map ok gs) ≡ ok (map (throttle v) gs)
  unfolding make_generators
  make_generators-ok [] = refl
  make_generators-ok (g ∷ gs) = rw (make_generators-ok gs) refl

  total_ids-throttle :
      (gs : List G) → total_ids core v Fine regular (map (throttle v) gs) ≡ frags_per_event gs
  unfolding throttle
  total_ids-throttle [] = refl
  total_ids-throttle (g ∷ gs) = ap (λ n. length (v.fragment_ids g) + n) (total_ids-throttle gs)

  expected_frags-throttle :
      (gs : List G)
      → frags_per_event gs < size_t_mod
      → expected_frags v (map (throttle v) gs) ≡ frags_per_event gs
  unfolding expected_frags throttle
  expected_frags-throttle [] small = refl
  expected_frags-throttle (g ∷ gs) small =
      rw (expected_frags-throttle gs (omega (arith, small))) (mod-eq_of_lt small)

  throttle-IsReady :
      (gs : List G) → All Fine gs → All (IsReady core v Fine regular) (map (throttle v) gs)
  unfolding throttle
  throttle-IsReady [] fine = tt
  throttle-IsReady (g ∷ gs) fine = ((fine.0, refl, inl refl), throttle-IsReady gs fine.1)

  -- With generators, at least one, that give in each call one fragment of each of their IDs, the IDs
  -- rising and valid, and with fewer than 2^64 fragments in an event: if the queue accepts every
  -- event, the run has a number, and some number of events, fewer than a fragment has sequence IDs
  -- for, is to be generated with sequence IDs of their own, then two polls of a generator and one
  -- round more than there are events are enough for `process_data` to end without a fault; that
  -- many events have gone to the queue, whole, in the order of their sequence IDs, which count from
  -- 1, and none is left in the store; the end of data follows them, and the result is that of the
  -- reader's thread, or 15 if the queue does not accept the end of data.
  pub process_data-Numbered :
      (ps : Options) (g : G) (gs : List G) (run wanted : ℕ) (end_accepted : Bool)
      (reader_result : ℕ)
      → All Fine (g ∷ gs)
      → frags_per_event (g ∷ gs) < size_t_mod
      → ((i : ℕ) → accepts i ≡ true)
      → ps.run_number ≡ some run
      → ps.events_to_generate ≡ some wanted
      → value_or ps.reset_sequence_id true ≡ true
      → wanted < numbers.sequence_id_limit
      → (s : EventStore E) × (process_data core numbers v accepts 2
            (suc wanted)
            ps
            (map ok (g ∷ gs))
            end_accepted
            reader_result
          ≡ ok (s, if end_accepted then reader_result else 15))
        × ((k : ℕ) → find k s.events ≡ none)
        × ((es : List E) × (s.queue ≡ map some es ++ (if end_accepted then none ∷ [] else []))
            × (length es ≡ wanted)
            × Numbered core numbers v accepts (frags_per_event (g ∷ gs)) 1 es)
  process_data-Numbered ps g gs run wanted end_accepted reader_result fine small all has_run
        has_count resets few =
      let num = frags_per_event (g ∷ gs) in
      let gens = map (throttle v) (g ∷ gs) in
      let e : expected_frags v gens ≡ num = expected_frags-throttle (g ∷ gs) small in
      let pos : 0 < num = omega (arith, regular.some_ids g fine.0) in
      let (s, r, empty, (es, queue, count, numbered)) =
        process_data-Made core numbers v accepts 2 (Ready num) ps (map ok (g ∷ gs)) gens run wanted
          end_accepted reader_result (make_generators-ok (g ∷ gs))
          (subst (λ n. Feeds core numbers v accepts 2 n (Ready num)) (sym e) (Ready-Feeds num pos))
          (throttle-IsReady (g ∷ gs) fine, total_ids-throttle (g ∷ gs)) all has_run has_count resets
          few in
      (
        s,
        r,
        empty,
        (es, queue, count, subst (λ n. Numbered core numbers v accepts n 1 es) e numbered),
      )
