-- ===== src/Aggregator.antt =====
-- artdaq/Application/MPI2/AggregatorCore.hh and AggregatorCore.cc: the core of the aggregator, which
-- as the data logger collects what the event builders send into its event store, and as the online
-- monitor what the data logger shares with it. Log messages, metrics and statistics are left out.
pub mod SharedMemory
pub mod Handover
pub mod Process
pub mod Loop
pub mod Closing
pub mod Clients
pub mod Paths
pub mod Configure
pub mod Configuring
pub mod Remote
pub mod Remotely
pub mod Files
pub mod Guards
pub mod Session
pub mod App
use Prim.Native.String.{String}
use fnal_artdaq.Base.{
  ℕ, List, [], Bool, true, false, Option, none, some, Outcome, ok, null_pointer, or_fault, ◌>>=◌,
  ◌&&◌,
}
use fnal_artdaq.ArtdaqCore.{ArtdaqCore}
use fnal_artdaq.EventStore.{EventStore, start_run, start_subrun}
use fnal_artdaq.RHandles.{RHandles}
use fnal_artdaq.EventBuilder.{three_tries, ended}
use fnal_artdaq.Aggregator.SharedMemory.{Segment}

-- `event_queue_` is the queue of the event store, which takes the same global queue. `shm` is what
-- `shm_ptr_` points to, `shm_segment` whether `shm_segment_id_` is an identifier, and
-- `pauses_started` counts the threads of `sendPauseAndResume_`.
pub record AggregatorCore (P F E : Type 0) : Type 0 where
  pub mpi_rank : ℕ
  pub run_id : ℕ
  pub art_initialized : Bool
  pub init_string : String
  pub max_fragment_size_words : ℕ
  pub mpi_buffer_count : ℕ
  pub first_data_sender_rank : ℕ
  pub data_sender_count : ℕ
  pub expected_events_per_bunch : ℕ
  pub print_event_store_stats : Bool
  pub inrun_recv_timeout_usec : ℕ
  pub endrun_recv_timeout_usec : ℕ
  pub pause_recv_timeout_usec : ℕ
  pub onmon_event_prescale : ℕ
  pub is_data_logger : Bool
  pub is_online_monitor : Bool
  pub receiver : Option (RHandles F)
  pub event_store : Option (EventStore E)
  pub previous_pset : P
  pub stop_requested : Bool
  pub local_pause_requested : Bool
  pub processing_fragments : Bool
  pub event_count_in_run : ℕ
  pub event_count_in_subrun : ℕ
  pub subrun_start_time : ℕ
  pub disk_writing_directory : String
  pub xmlrpc_client_lists : List (List String)
  pub file_close_threshold_bytes : ℕ
  pub file_close_timeout_secs : ℕ
  pub file_close_event_count : ℕ
  pub system_pause_requested : Bool
  pub pauses_started : ℕ
  pub shm_segment : Bool
  pub shm : Option Segment
  pub fragment_count_to_shm : ℕ

-- What `shmget` and `shmat` answer.
pub data Attachment : Type 0 where
  no_segment no_address : Attachment
  attached_to : Segment → Attachment

module _ {P F E : Type 0} where
  -- The constructor; the members that it does not initialize have any values.
  unfoldable pub new : ℕ → AggregatorCore P F E → AggregatorCore P F E
  new mpi_rank uninitialized = record uninitialized {
    mpi_rank = mpi_rank;
    art_initialized = false;
    data_sender_count = 0;
    receiver = none;
    event_store = none;
    stop_requested = false;
    local_pause_requested = false;
    processing_fragments = false;
    system_pause_requested = false;
    pauses_started = 0;
    shm_segment = false;
    shm = none;
  }

  -- A call through `event_store_ptr_`.
  unfoldable pub on_store :
      (EventStore E → EventStore E) → AggregatorCore P F E → Outcome (AggregatorCore P F E)
  on_store change s = do
    store ← or_fault s.event_store null_pointer
    ok (record s { event_store = some (change store) })

  -- `now` is the value of `time(0)`.
  unfoldable pub start : ℕ → ℕ → AggregatorCore P F E → Outcome (AggregatorCore P F E × Bool)
  unfolding on_store
  start now run s = do
    t ← on_store (start_run run) (record s {
      event_count_in_run = 0;
      event_count_in_subrun = 0;
      subrun_start_time = now;
      fragment_count_to_shm = 0;
      stop_requested = false;
      local_pause_requested = false;
      run_id = run;
    })
    ok (t, true)

  -- The thread of `process_fragments` reads the flags that these two set.
  unfoldable pub stop : AggregatorCore P F E → Outcome (AggregatorCore P F E × Bool)
  stop s = ok (record s { stop_requested = true }, true)

  unfoldable pub pause : AggregatorCore P F E → Outcome (AggregatorCore P F E × Bool)
  pause s = ok (record s { local_pause_requested = true }, true)

  unfoldable pub resume : ℕ → AggregatorCore P F E → Outcome (AggregatorCore P F E × Bool)
  unfolding on_store
  resume now s = do
    t ← on_store start_subrun (record s {
      event_count_in_subrun = 0;
      subrun_start_time = now;
      local_pause_requested = false;
    })
    ok (t, true)

  unfoldable pub soft_initialize : P → AggregatorCore P F E → Outcome (AggregatorCore P F E × Bool)
  soft_initialize pset s = ok (s, true)

  unfoldable pub reinitialize : P → AggregatorCore P F E → Outcome (AggregatorCore P F E × Bool)
  reinitialize pset s = ok (s, true)

  -- `attachToSharedMemory_`.
  unfoldable pub attach : Attachment → Bool → AggregatorCore P F E → AggregatorCore P F E
  attach no_segment initialize s = record s { shm_segment = false; shm = none }
  attach no_address initialize s = record s { shm_segment = true; shm = none }
  attach (attached_to seg) true s = record s {
    shm_segment = true;
    shm = some (record seg { has_fragment = 0 });
  }
  attach (attached_to seg) false s = record s { shm_segment = true; shm = some seg }

  -- `detachFromSharedMemory_`; the second part is whether the system is told to destroy the segment.
  unfoldable pub detach : Bool → AggregatorCore P F E → AggregatorCore P F E × Bool
  detach destroy s = (record s { shm = none }, destroy && s.shm_segment)

module _ {P F E : Type 0} (core : ArtdaqCore F E) where
  unfoldable pub shutdown :
      (ℕ → Bool) → ℕ → AggregatorCore P F E → Outcome (AggregatorCore P F E × Bool)
  unfolding three_tries
  shutdown answers reader_result s = do
    store ← or_fault s.event_store null_pointer
    let (t, succeeded) = three_tries (ended core reader_result) answers store
    ok (record s { event_store = some t }, succeeded)
