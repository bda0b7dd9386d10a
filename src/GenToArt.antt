-- ===== src/GenToArt.antt =====
-- tools/genToArt.cc: fragments from a list of generators go, event by event, to an event store whose
-- art thread reads them. What `makeFragmentGenerator` gives for each name of the configuration, the
-- parameters, and the answers of the queue are arguments; the command line is left out.
pub mod Throttled
pub mod Stored
pub mod Rounds
pub mod Complete
pub mod Whole
pub mod Filing
pub mod Feeding
pub mod Running
use fnal_artdaq.Base.{
  ℕ, zero, suc, ◌+◌, ◌%◌, ◌≤◌, ◌<◌, ◌≡◌, List, [], ◌∷◌, ◌++◌, Bool, true, false, not, ◌&&◌, ◌||◌,
  Option, none, some, Outcome, ok, fault, data_corruption, out_of_fuel, configuration, or_fault,
  ◌>>=◌, value_or, leb, ◌==◌, if◌then◌else◌, length,
}
use fnal_artdaq.ArtdaqCore.{ArtdaqCore}
use fnal_artdaq.FragCounter.{size_t_mod}
use fnal_artdaq.EventStore.{EventStore, new, insert, end_of_data}
use Throttled.{FragmentGenerator, ThrottledGenerator, throttle, get_next}

-- The sequence ID −1.
abbrev pub no_sequence_id : ℕ
no_sequence_id = 0xFFFF_FFFF_FFFF_FFFF

-- `Fragment::setSequenceID`, for the sequence IDs that a fragment has room for.
pub record Numbering {F E : Type 0} (core : ArtdaqCore F E) : Type 0 where
  pub sequence_id_limit : ℕ
  pub limit-le : sequence_id_limit ≤ no_sequence_id
  pub set_sequence_id : ℕ → F → F
  pub sequence_id-set_sequence_id :
      (n : ℕ) (f : F) → n < sequence_id_limit → core.sequence_id (set_sequence_id n f) ≡ n
  pub fragment_id-set_sequence_id :
      (n : ℕ) (f : F) → core.fragment_id (set_sequence_id n f) ≡ core.fragment_id f

-- The parameters of `process_data`; `none` is a parameter that is not there.
pub record Options : Type 0 where
  pub run_number : Option ℕ
  pub queue_size : Option ℕ
  pub print_stats : Option Bool
  pub events_to_generate : Option ℕ
  pub reset_sequence_id : Option Bool

module _ {G F : Type 0} (v : FragmentGenerator G F) where
  -- The loop on the names of the generators.
  unfoldable pub make_generators : List (Outcome G) → Outcome (List (ThrottledGenerator G F))
  make_generators [] = ok []
  make_generators (made ∷ more) = do g ← made; rest ← make_generators more; ok (throttle v g ∷ rest)

  unfoldable pub expected_frags : List (ThrottledGenerator G F) → ℕ
  expected_frags [] = 0
  expected_frags (t ∷ ts) = (t.num_frag_ids + expected_frags ts) % size_t_mod

module _ {G F E : Type 0} (core : ArtdaqCore F E) (v : FragmentGenerator G F) where
  -- The loop on the generators in one round: whether some generator has no more, the fragments and
  -- the generators.
  unfoldable pub collect :
      ℕ → List (ThrottledGenerator G F) → Outcome (Bool × List F × List (ThrottledGenerator G F))
  unfolding get_next
  collect fuel [] = ok (false, [], [])
  collect fuel (t ∷ ts) = do
    (more, new_frags, u) ← get_next core v fuel t
    (done, others, us) ← collect fuel ts
    ok (not more || done, new_frags ++ others, u ∷ us)

module _ {F E : Type 0} (core : ArtdaqCore F E) (numbers : Numbering core) where
  -- The loop on the fragments of one round. `accepts n` answers the n-th insertion of the run, if
  -- it puts an event onto the queue; the result has the number of the next.
  unfoldable pub insert_each :
      (ℕ → Bool) → Bool → ℕ → ℕ → ℕ → List F → EventStore E → Outcome (ℕ × EventStore E)
  unfolding insert
  insert_each accepts reset event_count n current [] s = ok (n, s)
  insert_each accepts reset event_count n current (f ∷ fs) s =
      let val = if reset then numbers.set_sequence_id event_count f else f in
      let seq = core.sequence_id val in
      let next = if current == no_sequence_id then seq else current in
      if not (current == no_sequence_id) && not (seq == current)
      then fault data_corruption
      else insert core (accepts n) val s >>= λ t.
          insert_each accepts reset event_count (n + 1) next fs t

module _ {G F E : Type 0} (core : ArtdaqCore F E) (numbers : Numbering core)
    (v : FragmentGenerator G F) (accepts : ℕ → Bool) where
  -- What the loop on the events has: the number of the next insertion, `done`, the generators and
  -- the store.
  pub record Progress : Type 0 where
    pub insertions : ℕ
    pub done : Bool
    pub generators : List (ThrottledGenerator G F)
    pub store : EventStore E

  unfoldable pub generates : ℕ → ℕ → Bool → Bool
  generates wanted event_count done =
      (wanted == no_sequence_id || leb event_count wanted) && not done

  -- The loop on the events, of at most `fuel` rounds; `polls` bounds the calls of a generator that
  -- one call of `getNext` waits for.
  unfoldable pub event_loop : ℕ → ℕ → ℕ → Bool → ℕ → Progress → Outcome Progress
  unfolding collect insert_each generates
  event_loop polls zero wanted reset event_count p = fault out_of_fuel
  event_loop polls (suc fuel) wanted reset event_count p =
      if generates wanted event_count p.done
      then (do
        (ended, frags, gens) ← collect core v polls p.generators
        (n, s) ←
            insert_each core numbers accepts reset event_count p.insertions no_sequence_id frags
              p.store
        event_loop polls fuel wanted reset ((event_count + 1) % size_t_mod)
            (record { insertions = n; done = p.done || ended; generators = gens; store = s }))
      else ok p

  -- `process_data`: the store that it leaves, and its result.
  unfoldable pub process_data :
      ℕ → ℕ → Options → List (Outcome G) → Bool → ℕ → Outcome (EventStore E × ℕ)
  unfolding make_generators expected_frags new event_loop end_of_data
  process_data polls fuel ps made end_accepted reader_result = do
    gens ← make_generators v made
    run ← or_fault ps.run_number configuration
    let store =
        new (expected_frags v gens) run 1 (value_or ps.queue_size 20)
          (if value_or ps.print_stats false then 1 else 0)
    p ←
        event_loop polls fuel (value_or ps.events_to_generate no_sequence_id)
          (value_or ps.reset_sequence_id true) 1
          (record { insertions = 0; done = false; generators = gens; store = store })
    let (s, result) = end_of_data core end_accepted reader_result p.store
    ok (s, value_or result 15)
