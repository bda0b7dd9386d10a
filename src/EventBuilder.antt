-- ===== src/EventBuilder.antt =====
-- artdaq/Application/MPI2/EventBuilderCore.hh and EventBuilderCore.cc: the core of the event
-- builder, which receives fragments and puts them into its event store. Log messages, metrics and
-- statistics are left out. What the threads share is passed along: the commands run in one thread,
-- `process_fragments` in another, and `flush_mutex` orders them.
pub mod Configure
pub mod Process
pub mod App
pub mod Unlocking
pub mod Standing
pub mod Guards
pub mod Session
pub mod Returning
pub mod Inserting
pub mod Finishing
pub mod Refused
pub mod Ending
pub mod Framing
pub mod Configuring
use Prim.Native.String.{String}
use fnal_artdaq.Base.{
  ℕ, zero, suc, List, [], Bool, true, false, not, Option, none, some, Outcome, ok, fault,
  null_pointer, deadlock, not_locked, or_fault, ◌>>=◌, if◌then◌else◌,
}
use fnal_artdaq.ArtdaqCore.{ArtdaqCore}
use fnal_artdaq.EventStore.{EventStore, start_run, start_subrun, end_run, end_subrun, end_of_data}
use fnal_artdaq.RHandles.{RHandles}

-- `flush_mutex` is whether the mutex is locked. A pointer is `none` where it is null.
pub record EventBuilderCore (P F E : Type 0) : Type 0 where
  pub mpi_rank : ℕ
  pub init_string : String
  pub previous_pset : P
  pub max_fragment_size_words : ℕ
  pub mpi_buffer_count : ℕ
  pub first_data_sender_rank : ℕ
  pub data_sender_count : ℕ
  pub expected_fragments_per_event : ℕ
  pub eod_fragments_received : ℕ
  pub use_art : Bool
  pub print_event_store_stats : Bool
  pub run_id : ℕ
  pub receiver : Option (RHandles F)
  pub event_store : Option (EventStore E)
  pub art_initialized : Bool
  pub stop_requested : Bool
  pub pause_requested : Bool
  pub run_is_paused : Bool
  pub inrun_recv_timeout_usec : ℕ
  pub endrun_recv_timeout_usec : ℕ
  pub pause_recv_timeout_usec : ℕ
  pub verbose : Bool
  pub fragment_count_in_run : ℕ
  pub flush_mutex : Bool

-- The constructor; the members that it does not initialize have any values.
unfoldable pub new : {P F E : Type 0} → ℕ → EventBuilderCore P F E → EventBuilderCore P F E
new mpi_rank uninitialized = record uninitialized {
  mpi_rank = mpi_rank;
  data_sender_count = 0;
  receiver = none;
  event_store = none;
  art_initialized = false;
  stop_requested = false;
  pause_requested = false;
  run_is_paused = false;
  flush_mutex = false;
}

-- `endSucceeded = op(); while (! endSucceeded && attemptsToEnd < 3) { ++attemptsToEnd; … }`: the
-- loop with so many attempts left; `answers n` is how the environment answers attempt `n`.
unfoldable pub retry_loop :
    {S : Type 0} → (Bool → S → S × Bool) → (ℕ → Bool) → ℕ → ℕ → S × Bool → S × Bool
retry_loop op answers zero n r = r
retry_loop op answers (suc left) n (s, true) = (s, true)
retry_loop op answers (suc left) n (s, false) =
    retry_loop op answers left (suc n) (op (answers n) s)

unfoldable pub three_tries : {S : Type 0} → (Bool → S → S × Bool) → (ℕ → Bool) → S → S × Bool
unfolding retry_loop
three_tries op answers s = retry_loop op answers 2 1 (op (answers 0) s)

module _ {P F E : Type 0} where
  -- `flush_mutex_.lock()`: what the other thread does until then, and the lock.
  unfoldable pub lock :
      (EventBuilderCore P F E → Outcome (EventBuilderCore P F E))
      → EventBuilderCore P F E
      → Outcome (EventBuilderCore P F E)
  lock others s = do
    t ← others s
    if t.flush_mutex then fault deadlock else ok (record t { flush_mutex = true })

  -- `flush_mutex_.unlock()`, which is undefined unless the mutex is locked.
  unfoldable pub unlock : EventBuilderCore P F E → Outcome (EventBuilderCore P F E)
  unlock s = if s.flush_mutex then ok (record s { flush_mutex = false }) else fault not_locked

  -- A call through `event_store_ptr_`.
  unfoldable pub on_store :
      (EventStore E → EventStore E) → EventBuilderCore P F E → Outcome (EventBuilderCore P F E)
  on_store change s = do
    store ← or_fault s.event_store null_pointer
    ok (record s { event_store = some (change store) })

  unfoldable pub start :
      ℕ
      → (EventBuilderCore P F E → Outcome (EventBuilderCore P F E))
      → EventBuilderCore P F E
      → Outcome (EventBuilderCore P F E × Bool)
  unfolding lock on_store
  start run others s = do
    t ← lock others (record s {
      stop_requested = false;
      pause_requested = false;
      run_is_paused = false;
      run_id = run;
      eod_fragments_received = 0;
      fragment_count_in_run = 0;
    })
    u ← on_store (start_run run) t
    ok (u, true)

  unfoldable pub resume :
      (EventBuilderCore P F E → Outcome (EventBuilderCore P F E))
      → EventBuilderCore P F E
      → Outcome (EventBuilderCore P F E × Bool)
  unfolding lock on_store
  resume others s = do
    t ← lock others (record s { eod_fragments_received = 0; pause_requested = false })
    u ← on_store start_subrun t
    ok (record u { run_is_paused = false }, true)

  unfoldable pub soft_initialize :
      P → EventBuilderCore P F E → Outcome (EventBuilderCore P F E × Bool)
  soft_initialize pset s = ok (s, true)

  unfoldable pub reinitialize : P → EventBuilderCore P F E → Outcome (EventBuilderCore P F E × Bool)
  reinitialize pset s = ok (s, true)

module _ {F E : Type 0} (core : ArtdaqCore F E) where
  -- Up to three calls of `endSubrun`, and of `endRun`.
  unfoldable pub finish_subrun : (ℕ → Bool) → EventStore E → EventStore E
  unfolding three_tries
  finish_subrun answers store = (three_tries (end_subrun core) answers store).0

  unfoldable pub finish_run : (ℕ → Bool) → EventStore E → EventStore E
  unfolding three_tries
  finish_run answers store = (three_tries (end_run core) answers store).0

  -- `endOfData` with its Boolean result alone; `reader_result` is what the reader's thread returns.
  abbrev pub ended : ℕ → Bool → EventStore E → EventStore E × Bool
  ended reader_result accepted store =
      let (t, result) = end_of_data core accepted reader_result store in
      (t, elim result [ none ↦ false | some n ↦ true ])

module _ {P F E : Type 0} (core : ArtdaqCore F E) where
  -- The log message at the start reads the store's subrun. `subrun_answers` answers the attempts to
  -- end the subrun, `run_answers` those to end the run.
  unfoldable pub stop :
      (ℕ → Bool)
      → (ℕ → Bool)
      → (EventBuilderCore P F E → Outcome (EventBuilderCore P F E))
      → EventBuilderCore P F E
      → Outcome (EventBuilderCore P F E × Bool)
  unfolding lock unlock on_store finish_subrun finish_run
  stop subrun_answers run_answers others s = do
    logged ← or_fault s.event_store null_pointer
    t ← lock others (record s { stop_requested = true })
    u ← (if t.run_is_paused then ok t else on_store (finish_subrun core subrun_answers) t)
    v ← on_store (finish_run core run_answers) u
    w ← unlock v
    ok (record w { run_is_paused = false }, true)

  unfoldable pub pause :
      (ℕ → Bool)
      → (EventBuilderCore P F E → Outcome (EventBuilderCore P F E))
      → EventBuilderCore P F E
      → Outcome (EventBuilderCore P F E × Bool)
  unfolding lock unlock on_store finish_subrun
  pause subrun_answers others s = do
    logged ← or_fault s.event_store null_pointer
    t ← lock others (record s { pause_requested = true })
    u ← on_store (finish_subrun core subrun_answers) t
    v ← unlock u
    ok (record v { run_is_paused = true }, true)

  unfoldable pub shutdown :
      (ℕ → Bool) → ℕ → EventBuilderCore P F E → Outcome (EventBuilderCore P F E × Bool)
  unfolding three_tries
  shutdown answers reader_result s = do
    store ← or_fault s.event_store null_pointer
    let (t, succeeded) = three_tries (ended core reader_result) answers store
    ok (record s { event_store = some t }, succeeded)
