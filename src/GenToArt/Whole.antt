-- ===== src/GenToArt/Whole.antt =====
-- A whole run of `process_data` of tools/genToArt.cc with generators that give, in every round, a
-- whole event together.
use fnal_artdaq.Base.{
  value_or, ℕ, suc, ◌<◌, ◌≡◌, refl, ap, sym, ◌∙◌, List, [], ◌∷◌, ◌++◌, map, append-nil, Bool, true,
  false, none, some, Outcome, ok, if◌then◌else◌, length, arith,
}
use fnal_artdaq.ArtdaqCore.{ArtdaqCore}
use fnal_artdaq.OrderedMap.{find}
use fnal_artdaq.EventStore.{EventStore, new, init_statistics, end_of_data}
use fnal_artdaq.GenToArt.Throttled.{FragmentGenerator, ThrottledGenerator}
use fnal_artdaq.GenToArt.{
  Numbering, Options, make_generators, expected_frags, Progress, process_data,
}
use fnal_artdaq.GenToArt.Complete.{Feeds, Numbered, IsIdle, event_loop-Made}

module _ {G F E : Type 0} (core : ArtdaqCore F E) (numbers : Numbering core)
    (v : FragmentGenerator G F) (accepts : ℕ → Bool) where
  new-IsIdle :
      (num run queue_size checks : ℕ)
      → 0 < num
      → IsIdle core numbers v accepts num (new {E = E} num run 1 queue_size checks)
  unfolding new init_statistics find
  new-IsIdle num run queue_size checks some_frags = (
    record { some_expected = some_frags; some_modulus = omega arith; sorted = tt; forming = tt },
    refl,
    λ k. refl,
  )

  end_of_data-queue :
      (accepted : Bool) (result : ℕ) (s : EventStore E)
      → (end_of_data core accepted result s).0.queue
        ≡ s.queue ++ (if accepted then none ∷ [] else [])
  unfolding end_of_data
  end_of_data-queue true result s = refl
  end_of_data-queue false result s = sym (append-nil _)

  end_of_data-result :
      (accepted : Bool) (result : ℕ) (s : EventStore E)
      → value_or (end_of_data core accepted result s).1 15 ≡ (if accepted then result else 15)
  unfolding end_of_data
  end_of_data-result true result s = refl
  end_of_data-result false result s = refl

  -- If the factory makes the generators, and in every round these give a whole event together, with
  -- valid fragment IDs, the queue accepts every event, the run has a number, and so many events, fewer than a fragment has sequence
  -- IDs for, are to be generated with sequence IDs of their own: then
  -- `process_data` ends without a fault, so many events have gone to the queue, whole, in the order
  -- of their sequence IDs, which count from 1, and none is left in the store; after them the end of
  -- data is sent, and the result is that of the reader's thread, or 15 if the queue does not accept
  -- the end of data.
  pub process_data-Made :
      (polls : ℕ) (Ready : List (ThrottledGenerator G F) → Type 0) (ps : Options)
      (made : List (Outcome G)) (gens : List (ThrottledGenerator G F)) (run wanted : ℕ)
      (end_accepted : Bool) (reader_result : ℕ)
      → make_generators v made ≡ ok gens
      → Feeds core numbers v accepts polls (expected_frags v gens) Ready
      → Ready gens
      → ((i : ℕ) → accepts i ≡ true)
      → ps.run_number ≡ some run
      → ps.events_to_generate ≡ some wanted
      → value_or ps.reset_sequence_id true ≡ true
      → wanted < numbers.sequence_id_limit
      → (s : EventStore E) × (process_data core numbers v accepts polls
            (suc wanted)
            ps
            made
            end_accepted
            reader_result
          ≡ ok (s, if end_accepted then reader_result else 15))
        × ((k : ℕ) → find k s.events ≡ none)
        × ((es : List E) × (s.queue ≡ map some es ++ (if end_accepted then none ∷ [] else []))
            × (length es ≡ wanted)
            × Numbered core numbers v accepts (expected_frags v gens) 1 es)
  unfolding process_data
  process_data-Made polls Ready ps made gens run wanted end_accepted reader_result makes feeds ready
        all has_run has_count resets small =
      let p : Progress core numbers v accepts = record {
        insertions = 0;
        done = false;
        generators = gens;
        store =
            new (expected_frags v gens) run 1 (value_or ps.queue_size 20)
              (if value_or ps.print_stats false then 1 else 0);
      } in
      let (q, loop, (idle, (es, queue, count, numbered_es))) =
        event_loop-Made core numbers v accepts polls (expected_frags v gens) Ready feeds all wanted
          wanted 1 p small (omega arith) refl ready
          (new-IsIdle _ run (value_or ps.queue_size 20) _ feeds.some_frags) in
      (
        (end_of_data core end_accepted reader_result q.store).0,
        rw (makes, has_run, has_count, resets, loop)
            (ap (λ r. ok ((end_of_data core end_accepted reader_result q.store).0, r))
              (end_of_data-result end_accepted reader_result q.store)),
        idle.2,
        (
          es,
          end_of_data-queue end_accepted reader_result q.store
              ∙ ap (λ l. l ++ (if end_accepted then none ∷ [] else [])) queue,
          count,
          numbered_es,
        ),
      )
