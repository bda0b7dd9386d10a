-- ===== src/Aggregator/Configuring.antt =====
-- What `initialize` of artdaq/Application/MPI2/AggregatorCore.cc leaves true of the two roles and of
-- art's configuration.
use Prim.Native.String.{String}
use fnal_artdaq.Base.{
  sym, ◌∙◌, Option, none, ℕ, ◌≡◌, refl, List, Bool, false, ◌&&◌, some, if◌then◌else◌, arith, Ends,
}
use fnal_artdaq.EventStore.{EventStore}
use mathlib.Core.Option.{none-ne-some}
use fnal_artdaq.Parameters.{ParameterSets, Lookup, going, returned}
use fnal_artdaq.Parameters.Keeping.{Stays, Stays-if, Keeps, keeps_rules, Keeps-answer, Answered}
use fnal_artdaq.Aggregator.{AggregatorCore}
use fnal_artdaq.Aggregator.Clients.{Boost}
use fnal_artdaq.Aggregator.Configure.{
  set_roles, make_store, read_demanded, read_files, read_optional, configure_art, reading,
  initialize,
}

module _ {P F E : Type 0} where
  -- Not the data logger and the online monitor at once.
  abbrev pub OneRole : AggregatorCore P F E → Type 0
  OneRole s = (s.is_data_logger && s.is_online_monitor) ≡ false

  set_roles-OneRole : (s : AggregatorCore P F E) → OneRole (set_roles s)
  unfolding set_roles
  set_roles-OneRole s = ground arith

-- Predicates that do not depend on the parameters.
record Ignores {P F E : Type 0} (Q : AggregatorCore P F E → Type 0) : Type 0 where
  parameters :
      (string directory : String) (clients : List (List String))
      → (words buffers first senders inrun endrun pausing prescale bytes secs count : ℕ)
      → (stats : Bool) (s : AggregatorCore P F E) → Q s
      → Q (record s {
        init_string = string;
        disk_writing_directory = directory;
        xmlrpc_client_lists = clients;
        max_fragment_size_words = words;
        mpi_buffer_count = buffers;
        first_data_sender_rank = first;
        data_sender_count = senders;
        inrun_recv_timeout_usec = inrun;
        endrun_recv_timeout_usec = endrun;
        pause_recv_timeout_usec = pausing;
        onmon_event_prescale = prescale;
        file_close_threshold_bytes = bytes;
        file_close_timeout_secs = secs;
        file_close_event_count = count;
        print_event_store_stats = stats;
      })
  roles :
      (events : ℕ) (s : AggregatorCore P F E)
      → Q s
      → Q (set_roles (record s { expected_events_per_bunch = events }))

module _ {P F E : Type 0} (sets : ParameterSets P) (get_megabytes : String → P → Lookup ℕ)
    (boost : Boost) (Q : AggregatorCore P F E → Type 0) (ig : Ignores Q) where
  read_demanded-Keeps : (daq agg : P) → Keeps Q (read_demanded sets get_megabytes boost daq agg)
  unfolding read_demanded
  read_demanded-Keeps daq agg = search (keeps_rules, ig.parameters, ig.roles) depth 40

  read_files-Keeps : (pset agg : P) → Keeps Q (read_files sets get_megabytes boost pset agg)
  unfolding read_files
  read_files-Keeps pset agg = search (keeps_rules, ig.parameters) depth 40

  read_optional-Keeps : (agg : P) → Keeps Q (read_optional sets get_megabytes boost agg)
  unfolding read_optional
  read_optional-Keeps agg = search (keeps_rules, ig.parameters) depth 40

  reading-Keeps :
      (pset : P)
      → ((numbers : ℕ × ℕ) → Keeps Q (configure_art sets get_megabytes boost pset numbers))
      → Keeps Q (reading sets get_megabytes boost pset)
  unfolding reading
  reading-Keeps pset art =
      search
        (
          keeps_rules, ig.parameters, read_demanded-Keeps, read_files-Keeps, read_optional-Keeps,
          art,
        )
        depth 40

module _ {P F E : Type 0} where
  OneRole-Ignores : Ignores (OneRole {P = P} {F = F} {E = E})
  OneRole-Ignores = record {
    parameters = λ _ _ _ _ _ _ _ _ _ _ _ _ _ _ _ s q. q;
    roles = λ events s q. set_roles-OneRole (record s { expected_events_per_bunch = events });
  }

  -- The event store, and the parameters that art was configured with, are as they were.
  abbrev pub Settled : EventStore E → P → AggregatorCore P F E → Type 0
  Settled st p t = (t.event_store ≡ some st) × (t.previous_pset ≡ p)

  Settled-Ignores : (st : EventStore E) (p : P) → Ignores (Settled st p)
  unfolding set_roles
  Settled-Ignores st p = record {
    parameters = λ _ _ _ _ _ _ _ _ _ _ _ _ _ _ _ s q. q;
    roles = λ events s q. q;
  }

module _ {P F E : Type 0} (sets : ParameterSets P) (get_megabytes : String → P → Lookup ℕ)
    (boost : Boost) where
  -- The store is made only where there is none.
  configure_art-Keeps :
      (Q : AggregatorCore P F E → Type 0) (pset : P) (numbers : ℕ × ℕ)
      → ((t : AggregatorCore P F E)
          → t.event_store ≡ none
          → Q t
          → Q (record (make_store numbers.0 numbers.1 t) { previous_pset = sets.erase "daq" pset }))
      → Keeps Q (configure_art sets get_megabytes boost pset numbers)
  unfolding configure_art
  configure_art-Keeps Q pset (depth, checks) made = record {
    at = λ t q. by_store t q t.event_store refl;
  }
    where
      by_store :
          (t : AggregatorCore P F E)
          → Q t
          → (o : Option (EventStore E)) → t.event_store ≡ o
          → Stays Q (elim o [
            | none ↦
                going tt
                  (record (make_store depth checks t) { previous_pset = sets.erase "daq" pset })
            | some store ↦
                if sets.same (sets.erase "daq" pset) t.previous_pset then going tt t else returned t
          ])
      by_store t q none e = made t e q
      by_store t q (some store) e =
          Stays-if Q (going tt t) (returned t) (sets.same (sets.erase "daq" pset) t.previous_pset) q
            q

  configure_art-OneRole :
      (pset : P) (numbers : ℕ × ℕ)
      → Keeps
          (OneRole {P = P} {F = F} {E = E})
          (configure_art sets get_megabytes boost pset numbers)
  unfolding make_store
  configure_art-OneRole pset numbers = configure_art-Keeps OneRole pset numbers λ t e q. q

  configure_art-Settled :
      (st : EventStore E) (p : P) (pset : P) (numbers : ℕ × ℕ)
      → Keeps (Settled {F = F} st p) (configure_art sets get_megabytes boost pset numbers)
  configure_art-Settled st p pset numbers =
      configure_art-Keeps (Settled st p) pset numbers λ t e q. absurd (none-ne-some _ (sym e ∙ q.0))

  -- No `initialize` makes an aggregator that is not both the data logger and the online monitor
  -- into one that is both, whether it answers `true` or `false`.
  pub initialize-OneRole :
      (pset : P) (s : AggregatorCore P F E)
      → OneRole s
      → Ends (Answered OneRole) (initialize sets get_megabytes boost pset s)
  unfolding initialize
  initialize-OneRole pset s one =
      Keeps-answer
        (reading-Keeps sets get_megabytes boost OneRole OneRole-Ignores pset
          (configure_art-OneRole pset))
        s one

  -- Once there is an event store, no `initialize` replaces it or the parameters that art was
  -- configured with, whether it answers `true` or `false`.
  pub initialize-Settled :
      (pset : P) (s : AggregatorCore P F E) (st : EventStore E)
      → s.event_store ≡ some st
      → Ends (Answered (Settled st s.previous_pset)) (initialize sets get_megabytes boost pset s)
  unfolding initialize
  initialize-Settled pset s st has =
      Keeps-answer
        (reading-Keeps sets get_megabytes boost (Settled st s.previous_pset)
          (Settled-Ignores st s.previous_pset) pset (configure_art-Settled st s.previous_pset pset))
        s (has, refl)
