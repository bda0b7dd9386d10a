-- ===== src/EventBuilder/Configuring.antt =====
-- What `initialize` of artdaq/Application/MPI2/EventBuilderCore.cc leaves alone.
use Prim.Native.String.{String}
use fnal_artdaq.Base.{ℕ, ◌≡◌, refl, Bool, true, Ends}
use fnal_artdaq.Parameters.{ParameterSets, going, returned}
use fnal_artdaq.Parameters.Keeping.{
  Stays-if_true, Stays-if, Keeps, keeps_rules, Keeps-answer, Answered,
}
use fnal_artdaq.EventBuilder.{EventBuilderCore}
use fnal_artdaq.EventBuilder.Configure.{
  initialize, reading, read_demanded, read_optional, configure_art, initialize_event_store,
}

module _ {P F E : Type 0} where
  -- The mutex and the flag of a pause.
  abbrev pub Untouched : EventBuilderCore P F E → EventBuilderCore P F E → Type 0
  Untouched s t = (t.flush_mutex ≡ s.flush_mutex) × (t.run_is_paused ≡ s.run_is_paused)

  -- What art works with.
  abbrev pub Frozen : EventBuilderCore P F E → EventBuilderCore P F E → Type 0
  Frozen s t =
      (t.art_initialized ≡ true)
      × (t.event_store ≡ s.event_store)
      × (t.previous_pset ≡ s.previous_pset)

-- Predicates that do not depend on the parameters.
pub record Ignores {P F E : Type 0} (Q : EventBuilderCore P F E → Type 0) : Type 0 where
  pub parameters :
      (string : String) (words buffers first senders fragments inrun endrun pausing : ℕ)
      → (with_art stats loud : Bool) (s : EventBuilderCore P F E) → Q s
      → Q (record s {
        init_string = string;
        max_fragment_size_words = words;
        mpi_buffer_count = buffers;
        first_data_sender_rank = first;
        data_sender_count = senders;
        expected_fragments_per_event = fragments;
        inrun_recv_timeout_usec = inrun;
        endrun_recv_timeout_usec = endrun;
        pause_recv_timeout_usec = pausing;
        use_art = with_art;
        print_event_store_stats = stats;
        verbose = loud;
      })

module _ {P F E : Type 0} (sets : ParameterSets P) (Q : EventBuilderCore P F E → Type 0)
    (ig : Ignores Q) where
  read_demanded-Keeps : (daq evb : P) → Keeps Q (read_demanded sets daq evb)
  unfolding read_demanded
  read_demanded-Keeps daq evb = search (keeps_rules, ig.parameters) depth 40

  read_optional-Keeps : (evb : P) → Keeps Q (read_optional sets evb)
  unfolding read_optional
  read_optional-Keeps evb = search (keeps_rules, ig.parameters) depth 40

  reading-Keeps :
      (pset : P)
      → ((numbers : ℕ × ℕ) → Keeps Q (configure_art sets pset numbers))
      → Keeps Q (reading sets pset)
  unfolding reading
  reading-Keeps pset art =
      search (keeps_rules, ig.parameters, read_demanded-Keeps, read_optional-Keeps, art) depth 40

module _ {P F E : Type 0} (s : EventBuilderCore P F E) where
  Untouched-Ignores : Ignores (Untouched s)
  Untouched-Ignores = record { parameters = λ _ _ _ _ _ _ _ _ _ _ _ _ t q. q }

  Frozen-Ignores : Ignores (Frozen s)
  Frozen-Ignores = record { parameters = λ _ _ _ _ _ _ _ _ _ _ _ _ t q. q }

module _ {P F E : Type 0} (sets : ParameterSets P) (s : EventBuilderCore P F E) where
  configure_art-Untouched :
      (pset : P) (numbers : ℕ × ℕ) → Keeps (Untouched s) (configure_art sets pset numbers)
  unfolding configure_art initialize_event_store
  configure_art-Untouched pset (depth, checks) = record {
    at = λ t q.
        Stays-if (Untouched s) _ _ t.art_initialized
          (Stays-if (Untouched s) (going tt t) (returned t)
            (sets.same (sets.erase "daq" pset) t.previous_pset) q q)
          q;
  }

  configure_art-Frozen :
      (pset : P) (numbers : ℕ × ℕ) → Keeps (Frozen s) (configure_art sets pset numbers)
  unfolding configure_art
  configure_art-Frozen pset (depth, checks) = record {
    at = λ t q. Stays-if_true (Frozen s) _ _ t.art_initialized q.0 (
        Stays-if (Frozen s) (going tt t) (returned t)
          (sets.same (sets.erase "daq" pset) t.previous_pset) q q);
  }

  -- `initialize` changes neither the mutex nor the flag of a pause, whether it answers `true` or
  -- `false`.
  pub initialize-Untouched : (pset : P) → Ends (Answered (Untouched s)) (initialize sets pset s)
  unfolding initialize
  initialize-Untouched pset =
      Keeps-answer
        (reading-Keeps sets (Untouched s) (Untouched-Ignores s) pset (configure_art-Untouched pset))
        s (refl, refl)

  -- If art has been configured, `initialize` changes none of the event store, the parameters it is
  -- configured with and the flag that says so, whether it answers `true` or `false`.
  pub initialize-Frozen :
      (pset : P) → s.art_initialized ≡ true → Ends (Answered (Frozen s)) (initialize sets pset s)
  unfolding initialize
  initialize-Frozen pset art =
      Keeps-answer
        (reading-Keeps sets (Frozen s) (Frozen-Ignores s) pset (configure_art-Frozen pset)) s
        (art, refl, refl)
