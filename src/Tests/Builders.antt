-- ===== src/Tests/Builders.antt =====
use Prim.Native.String.{String}
use fnal_artdaq.Base.{
  ◌++◌, inl, ℕ, ◌≡◌, refl, List, [], ◌∷◌, Bool, true, false, none, some, Outcome, ok, fault,
  null_pointer, not_locked, arith, if◌then◌else◌, Ends, ◌>>=◌,
}
use fnal_artdaq.Parameters.{ParameterSets, missing, found}
use fnal_artdaq.Parameters.Keeping.{Answered}
use fnal_artdaq.Generator.{pos}
use fnal_artdaq.RHandles.{RHandles, Arrival, any_source_active}
use fnal_artdaq.RHandles
use fnal_artdaq.RHandles.Receive.{recv_fragment, poll, poll_all, poll_loop, sleep_loops}
use fnal_artdaq.EventStore.{EventStore, flush_data}
use fnal_artdaq.Commandable.Machine.{booted, Context, init, start, stop, ready}
use fnal_artdaq.Commandable
use fnal_artdaq.Commandable.Stack.{IsStacked}
use fnal_artdaq.EventBuilder
use fnal_artdaq.EventBuilder.{EventBuilderCore}
use fnal_artdaq.EventBuilder.Configure.{initialize}
use fnal_artdaq.EventBuilder.Configuring.{Frozen, initialize-Frozen}
use fnal_artdaq.EventBuilder.Process.{
  outstanding, counted, Turn, Tallies, Attempt, try_insert, take_fragment, turn_of, process_loop,
  process_fragments, finish, on_timeout, timeout_ends, recv_timeout_usec,
}
use fnal_artdaq.EventBuilder.Ending.{stop_lem, told}
use fnal_artdaq.EventBuilder.Finishing.{IsWaiting, flushed, process_loop-stop}
use fnal_artdaq.EventBuilder.Inserting.{Tried, try_insert_lem, take_fragment-unlock_twice}
use fnal_artdaq.EventBuilder.App.{EventBuilderApp, Environment}
use fnal_artdaq.EventBuilder.App
use fnal_artdaq.EventBuilder.Session.{Event, command, thread, session, session_lem, IsSafe}
use fnal_artdaq.EventBuilder.Refused.{session-init_refused, summary, answers}
use fnal_artdaq.Tests.Sample.{SampleFragment, SampleEvent, sample_core, sample_fragment}
use fnal_artdaq.Tests.Store.{two_open, two_open-IsValid, second}

-- A parameter set is `true`, with every parameter, or `false`, without any part.
abbrev pub sample_sets : ParameterSets Bool
sample_sets = record {
  get_pset = λ key p. if p then found true else missing;
  get_size = λ key p. found 1;
  get_bool = λ key p. found true;
  get_string = λ key p. found "";
  get_int = λ key p. found (pos 0);
  erase = λ key p. p;
  to_string = λ p. "";
  same = λ p q. true;
  same_refl = λ p. refl;
}

abbrev Sample : Type 0
Sample = EventBuilderCore Bool SampleFragment SampleEvent

-- A run is going on: one source, from rank 3 on, has sent nothing yet.
abbrev builder : Sample
builder = record {
  mpi_rank = 9;
  init_string = "";
  previous_pset = true;
  max_fragment_size_words = 100;
  mpi_buffer_count = 1;
  first_data_sender_rank = 3;
  data_sender_count = 1;
  expected_fragments_per_event = 3;
  eod_fragments_received = 0;
  use_art = true;
  print_event_store_stats = false;
  run_id = 7;
  receiver = none;
  event_store = some two_open;
  art_initialized = true;
  stop_requested = false;
  pause_requested = false;
  run_is_paused = false;
  inrun_recv_timeout_usec = 1000;
  endrun_recv_timeout_usec = 2000;
  pause_recv_timeout_usec = 1500;
  verbose = false;
  fragment_count_in_run = 0;
  flush_mutex = true;
}

initialize-Frozen_example : Ends (Answered (Frozen builder)) (initialize sample_sets true builder)
initialize-Frozen_example = initialize-Frozen sample_sets builder true refl

-- Nothing arrives, and the flags are as given.
abbrev silence : Bool → Turn SampleFragment
silence stopping = record {
  cancels = λ n. true;
  polls = λ n. [];
  waited = record { which = none; source = 3; fragment = sample_fragment 1 1 };
  stop_before = stopping;
  pause_before = false;
  stop_after = stopping;
  pause_after = false;
  attempts = [];
  flushes = λ n. true;
}

abbrev receiver : RHandles SampleFragment
receiver = record {
  buffer_count = 1;
  max_payload_size = 100;
  src_count = 1;
  src_start = 3;
  recv_frag_count = record { offset = 3; receipts = 0 ∷ [] };
  src_status = RHandles.sending ∷ [];
  expected_count = 0 ∷ [];
  reqs = false ∷ [];
  req_sources = some 3 ∷ [];
  last_source_posted = some 3;
  ready = [];
}

abbrev receiving : Sample
receiving = record builder { receiver = some receiver }

receiving-IsWaiting : IsWaiting receiving
unfolding any_source_active
receiving-IsWaiting = record {
  receiver = receiver;
  receiver_is = refl;
  none_ready = refl;
  active = refl;
  inrun_positive = omega arith;
  endrun_positive = omega arith;
  pause_positive = omega arith;
}

abbrev nothing : Tallies
nothing = record { received = 0 ∷ 0 ∷ 0 ∷ 0 ∷ []; sent = 0 ∷ 0 ∷ 0 ∷ 0 ∷ [] }

process_loop-stop_example :
    process_loop sample_core (silence false ∷ silence true ∷ []) nothing receiving
    ≡ ok (nothing, flushed sample_core receiving (λ n. true) two_open)
process_loop-stop_example =
    process_loop-stop sample_core nothing receiving receiving-IsWaiting (silence false ∷ [])
      (silence true) [] two_open (((λ n. refl), inl (refl, refl)), tt)
      ((λ n. refl), inl (refl, refl)) refl refl

-- The queue is full, and `stop` has been called.
abbrev refused : Attempt
refused = record { full = λ n. true; accepted = false; stop = true; pause = false }

-- The queue is full at first.
abbrev later : List Attempt
later =
    record { full = λ n. true; accepted = false; stop = false; pause = false }
    ∷ record { full = λ n. false; accepted = true; stop = false; pause = false }
    ∷ []

try_insert_lem_example :
    Tried sample_core later second builder two_open (try_insert sample_core later second builder)
try_insert_lem_example =
    try_insert_lem sample_core later second builder two_open refl refl two_open-IsValid
      (λ e. omega (arith, e)) refl

-- The end-of-data fragment of the source announced two fragments, and one has come since.
abbrev almost : Tallies
almost = record { received = 0 ∷ 0 ∷ 0 ∷ 2 ∷ []; sent = 0 ∷ 0 ∷ 0 ∷ 3 ∷ [] }

abbrev pressed : Turn SampleFragment
pressed = record (silence true) { attempts = refused ∷ [] }

outstanding_none : outstanding (counted 3 2 almost).received almost.sent ≡ false
unfolding outstanding
outstanding_none = refl

take_fragment-unlock_twice_example :
    take_fragment sample_core pressed 3 2 second almost
      (record builder { eod_fragments_received = 1 })
    ≡ fault not_locked
take_fragment-unlock_twice_example =
    take_fragment-unlock_twice sample_core pressed refused [] 3 2 second almost
      (record builder { eod_fragments_received = 1 }) two_open refl (λ e. omega (arith, e)) refl
      refl refl refl refl outstanding_none

builder_stops :
    process_fragments sample_core (silence true ∷ []) (record builder { stop_requested = true })
    ≡ ok (record builder {
      stop_requested = true;
      event_store = some (flush_data sample_core (λ n. true) two_open).0;
      flush_mutex = false;
    })
unfolding process_fragments process_loop turn_of finish on_timeout timeout_ends recv_timeout_usec
    recv_fragment poll poll_all poll_loop sleep_loops any_source_active RHandles.new
    RHandles.post_all RHandles.post RHandles.initial EventBuilder.on_store EventBuilder.unlock
builder_stops = refl

stop_lem_example :
    (st : EventStore SampleEvent) × ((record builder {
      stop_requested = true;
      event_store = some (flush_data sample_core (λ n. true) two_open).0;
      flush_mutex = false;
    }).event_store
      ≡ some st)
    × (EventBuilder.stop sample_core
          (λ n. true)
          (λ n. false)
          (process_fragments sample_core (silence true ∷ []))
          builder
        ≡ ok (
          record builder {
            stop_requested = true;
            event_store = some (
                told sample_core sample_core.end_of_run
                  (λ n. false)
                  (if false
                    then st
                    else told sample_core sample_core.end_of_subrun (λ n. true) st));
            flush_mutex = false;
            run_is_paused = false;
          },
          true,
        ))
stop_lem_example =
    stop_lem sample_core (silence true ∷ []) (λ n. true) (λ n. false) builder
      (record builder {
        stop_requested = true;
        event_store = some (flush_data sample_core (λ n. true) two_open).0;
        flush_mutex = false;
      })
      two_open refl refl builder_stops

abbrev meanwhile : Environment Bool SampleFragment SampleEvent
meanwhile = record {
  turns = silence true ∷ [];
  subrun_answers = λ n. true;
  run_answers = λ n. false;
  data_answers = λ n. true;
  reader_result = 0;
  memory = builder;
}

abbrev digits : ℕ → String
digits n = ""

-- The source says in the run that it has sent its data: the thread returns before the stop.
abbrev orders : List (Event Bool SampleFragment SampleEvent)
orders =
    command meanwhile (init true 1 2)
    ∷ command meanwhile (start 7 1 2)
    ∷ thread (silence true ∷ [])
    ∷ command meanwhile (stop 1 2)
    ∷ []

session_lem_example :
    (y : Context (Outcome (EventBuilderApp Bool SampleFragment SampleEvent))) × (session sample_core
        sample_sets digits orders
        (Commandable.new (record {
          external_request_status = true;
          report_string = "";
          members = ok (App.new 9 "evb");
        }))
      ≡ ok y)
    × IsStacked y
    × IsSafe (y.state, y.app)
session_lem_example = session_lem sample_core sample_sets digits 9 "evb" "" true orders

session-init_refused_example :
    let x = Commandable.new (record {
      external_request_status = true;
      report_string = "";
      members = ok (App.new 9 "evb");
    }) in
    let inits = command meanwhile (init false 1 2) ∷ command meanwhile (init true 1 2) ∷ [] in
    (answers sample_core sample_sets digits inits x ≡ ok ((false, booted) ∷ (true, ready) ∷ []))
    × ((session sample_core sample_sets digits (inits ++ command meanwhile (start 7 1 2) ∷ []) x
          >>= summary)
        ≡ ok (ready, fault null_pointer))
session-init_refused_example =
    session-init_refused sample_core sample_sets digits 9 7 1 2 "evb" "" true false true meanwhile
      meanwhile meanwhile refl
