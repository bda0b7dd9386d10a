-- ===== src/EventBuilder/Configure.antt =====
-- artdaq/Application/MPI2/EventBuilderCore.cc, `initialize`: the parameters are read in the order of
-- the code, and the event store is made unless art has been configured before. The parameters of
-- the metrics and the statistics, and the waiting time of the queue, are left out.
use fnal_artdaq.Base.{Bool, true, false, some, Outcome, if◌then◌else◌}
use fnal_artdaq.Parameters.{
  ParameterSets, Reading, ◌>>=◌, demand, optional, assign, answer, going, returned, give,
}
use fnal_artdaq.Base.{ℕ}
use fnal_artdaq.EventStore
use fnal_artdaq.EventBuilder.{EventBuilderCore}

-- `initializeEventStore`: the two calls differ in the reader that art runs.
unfoldable pub initialize_event_store :
    {P F E : Type 0} → ℕ → ℕ → EventBuilderCore P F E → EventBuilderCore P F E
initialize_event_store depth check_count s = record s {
  event_store = some (EventStore.new s.expected_fragments_per_event 1 s.mpi_rank depth check_count);
  art_initialized = if s.use_art then true else s.art_initialized;
}

module _ {P F E : Type 0} (sets : ParameterSets P) where
  open sets use {get_pset, get_size, get_bool, erase, to_string, same}

  -- The parameters that the event builder cannot do without.
  unfoldable pub read_demanded : P → P → Reading (EventBuilderCore P F E) (Unit {0})
  read_demanded daq evb = do
    words ← demand (get_size "max_fragment_size_words" daq)
    _ ← assign (λ s. record s { max_fragment_size_words = words })
    buffers ← demand (get_size "mpi_buffer_count" evb)
    _ ← assign (λ s. record s { mpi_buffer_count = buffers })
    first ← demand (get_size "first_fragment_receiver_rank" evb)
    _ ← assign (λ s. record s { first_data_sender_rank = first })
    senders ← demand (get_size "fragment_receiver_count" evb)
    _ ← assign (λ s. record s { data_sender_count = senders })
    fragments ← demand (get_size "expected_fragments_per_event" evb)
    _ ← assign (λ s. record s { expected_fragments_per_event = fragments })
    with_art ← demand (get_bool "use_art" evb)
    assign (λ s. record s { use_art = with_art })

  -- The others; the results are `event_queue_depth` and `event_queue_check_count`.
  unfoldable pub read_optional : P → Reading (EventBuilderCore P F E) (ℕ × ℕ)
  read_optional evb = do
    stats ← optional false (get_bool "print_event_store_stats" evb)
    _ ← assign (λ s. record s { print_event_store_stats = stats })
    inrun ← optional 100000 (get_size "inrun_recv_timeout_usec" evb)
    _ ← assign (λ s. record s { inrun_recv_timeout_usec = inrun })
    endrun ← optional 20000000 (get_size "endrun_recv_timeout_usec" evb)
    _ ← assign (λ s. record s { endrun_recv_timeout_usec = endrun })
    pausing ← optional 3000000 (get_size "pause_recv_timeout_usec" evb)
    _ ← assign (λ s. record s { pause_recv_timeout_usec = pausing })
    loud ← optional false (get_bool "verbose" evb)
    _ ← assign (λ s. record s { verbose = loud })
    depth ← optional 20 (get_size "event_queue_depth" evb)
    checks ← optional 5000 (get_size "event_queue_check_count" evb)
    give (depth, checks)

  -- "Once art has been initialized we can't tear it down or change it's configuration."
  unfoldable pub configure_art : P → ℕ × ℕ → Reading (EventBuilderCore P F E) (Unit {0})
  unfolding initialize_event_store
  configure_art pset (depth, checks) s =
      if s.art_initialized
      then if same (erase "daq" pset) s.previous_pset then going tt s else returned s
      else going tt
          (record (initialize_event_store depth checks s) { previous_pset = erase "daq" pset })

  unfoldable pub reading : P → Reading (EventBuilderCore P F E) (Unit {0})
  unfolding read_demanded read_optional configure_art
  reading pset = do
    _ ← assign (λ s. record s { init_string = to_string pset })
    daq ← demand (get_pset "daq" pset)
    evb ← demand (get_pset "event_builder" daq)
    _ ← read_demanded daq evb
    numbers ← read_optional evb
    configure_art pset numbers

  unfoldable pub initialize : P → EventBuilderCore P F E → Outcome (EventBuilderCore P F E × Bool)
  unfolding reading
  initialize pset s = answer (reading pset s)
