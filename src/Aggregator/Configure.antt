-- ===== src/Aggregator/Configure.antt =====
-- artdaq/Application/MPI2/AggregatorCore.cc, `initialize`: the parameters are read in the order of
-- the code, and the event store is made unless there is one. The parameters of the metrics and the
-- statistics, the waiting time of the queue and the names of the metrics are left out.
use Prim.Native.String.{String}
use fnal_artdaq.Base.{ℕ, ◌+◌, ◌*◌, ◌%◌, ◌==◌, Bool, false, none, some, Outcome, if◌then◌else◌}
use fnal_artdaq.FragCounter.{size_t_mod}
use fnal_artdaq.Generator.{ℤ, pos, negsuc}
use fnal_artdaq.Parameters.{
  ParameterSets, Lookup, missing, mismatched, found, Reading, ◌>>=◌, demand, optional, assign,
  answer, going, returned, give,
}
use fnal_artdaq.EventStore
use fnal_artdaq.EventStore.{set_seq_id_modulus, uint32_mod}
use fnal_artdaq.Aggregator.{AggregatorCore}
use fnal_artdaq.Aggregator.Paths.{directory_of}
use fnal_artdaq.Aggregator.Clients.{Boost, client_lists}

-- `is_data_logger_` and `is_online_monitor_`, by the rank.
unfoldable pub set_roles : {P F E : Type 0} → AggregatorCore P F E → AggregatorCore P F E
set_roles s = record s {
  is_data_logger =
      s.mpi_rank % size_t_mod == (s.first_data_sender_rank + s.data_sender_count) % size_t_mod;
  is_online_monitor =
      s.mpi_rank % size_t_mod == (s.first_data_sender_rank + s.data_sender_count + 1) % size_t_mod;
}

-- `desired_events_per_bunch`
abbrev pub desired_events : {P F E : Type 0} → AggregatorCore P F E → ℕ
desired_events s = if s.is_online_monitor then 1 else s.expected_events_per_bunch

-- `event_store_ptr_.reset(…)` and `setSeqIDModulus`, which takes an `unsigned int`.
unfoldable pub make_store : {P F E : Type 0} → ℕ → ℕ → AggregatorCore P F E → AggregatorCore P F E
make_store depth check_count s = record s {
  event_store = some (
      set_seq_id_modulus (desired_events s % uint32_mod)
        (EventStore.new (desired_events s) 1 s.mpi_rank depth check_count));
}

-- A `time_t` that is negative never closes a file, as zero does not.
abbrev pub seconds : ℤ → ℕ
seconds (pos n) = n
seconds (negsuc n) = 0

-- `pset.get("outputs")` and so on, under `catch (...) {}`.
unfoldable pub file_directory : {P : Type 0} → ParameterSets P → P → String
unfolding directory_of
file_directory sets pset = elim (sets.get_pset "outputs" pset) [
  | found outputs ↦ elim (sets.get_pset "normalOutput" outputs) [
    | found normal ↦ elim (sets.get_string "fileName" normal) [
      | found name ↦ directory_of name
      | missing ↦ ""
      | mismatched ↦ ""
    ]
    | missing ↦ ""
    | mismatched ↦ ""
  ]
  | missing ↦ ""
  | mismatched ↦ ""
]

-- `get_megabytes` looks up a `double` and casts it to `size_t`.
module _ {P F E : Type 0} (sets : ParameterSets P) (get_megabytes : String → P → Lookup ℕ)
    (boost : Boost) where
  open sets use {get_pset, get_size, get_bool, get_string, get_int, erase, to_string, same}

  -- The parameters that the aggregator cannot do without.
  unfoldable pub read_demanded : P → P → Reading (AggregatorCore P F E) (Unit {0})
  unfolding set_roles
  read_demanded daq agg = do
    words ← demand (get_size "max_fragment_size_words" daq)
    _ ← assign (λ s. record s { max_fragment_size_words = words })
    buffers ← demand (get_size "mpi_buffer_count" agg)
    _ ← assign (λ s. record s { mpi_buffer_count = buffers })
    first ← demand (get_size "first_event_builder_rank" agg)
    _ ← assign (λ s. record s { first_data_sender_rank = first })
    senders ← demand (get_size "event_builder_count" agg)
    _ ← assign (λ s. record s { data_sender_count = senders })
    events ← demand (get_size "expected_events_per_bunch" agg)
    assign (λ s. set_roles (record s { expected_events_per_bunch = events }))

  -- The files and the clients.
  unfoldable pub read_files : P → P → Reading (AggregatorCore P F E) (Unit {0})
  unfolding file_directory client_lists
  read_files pset agg = do
    _ ← assign (λ s. record s { disk_writing_directory = file_directory sets pset })
    clients ← optional "" (get_string "xmlrpc_client_list" agg)
    _ ←
        assign
          (λ s. record s { xmlrpc_client_lists = client_lists boost clients s.xmlrpc_client_lists })
    megabytes ← optional 0 (get_megabytes "file_size_MB" agg)
    _ ← assign (λ s. record s { file_close_threshold_bytes = megabytes * 1024 * 1024 })
    duration ← optional (pos 0) (get_int "file_duration" agg)
    _ ← assign (λ s. record s { file_close_timeout_secs = seconds duration })
    events ← optional 0 (get_size "file_event_count" agg)
    assign (λ s. record s { file_close_event_count = events })

  -- The others; the results are `event_queue_depth` and `event_queue_check_count`.
  unfoldable pub read_optional : P → Reading (AggregatorCore P F E) (ℕ × ℕ)
  read_optional agg = do
    depth ← optional 20 (get_size "event_queue_depth" agg)
    checks ← optional 5000 (get_size "event_queue_check_count" agg)
    stats ← optional false (get_bool "print_event_store_stats" agg)
    _ ← assign (λ s. record s { print_event_store_stats = stats })
    inrun ← optional 100000 (get_size "inrun_recv_timeout_usec" agg)
    _ ← assign (λ s. record s { inrun_recv_timeout_usec = inrun })
    endrun ← optional 20000000 (get_size "endrun_recv_timeout_usec" agg)
    _ ← assign (λ s. record s { endrun_recv_timeout_usec = endrun })
    pausing ← optional 3000000 (get_size "pause_recv_timeout_usec" agg)
    _ ← assign (λ s. record s { pause_recv_timeout_usec = pausing })
    prescale ← optional 1 (get_size "onmon_event_prescale" agg)
    _ ← assign (λ s. record s { onmon_event_prescale = prescale })
    give (depth, checks)

  -- "The art configuration can not be altered after art has been configured."
  unfoldable pub configure_art : P → ℕ × ℕ → Reading (AggregatorCore P F E) (Unit {0})
  unfolding make_store
  configure_art pset (depth, checks) s = elim s.event_store [
    | none ↦ going tt (record (make_store depth checks s) { previous_pset = erase "daq" pset })
    | some store ↦ if same (erase "daq" pset) s.previous_pset then going tt s else returned s
  ]

  unfoldable pub reading : P → Reading (AggregatorCore P F E) (Unit {0})
  unfolding read_demanded read_files read_optional configure_art
  reading pset = do
    _ ← assign (λ s. record s { init_string = to_string pset })
    daq ← demand (get_pset "daq" pset)
    agg ← demand (get_pset "aggregator" daq)
    _ ← read_demanded daq agg
    _ ← read_files pset agg
    numbers ← read_optional agg
    configure_art pset numbers

  unfoldable pub initialize : P → AggregatorCore P F E → Outcome (AggregatorCore P F E × Bool)
  unfolding reading
  initialize pset s = answer (reading pset s)
