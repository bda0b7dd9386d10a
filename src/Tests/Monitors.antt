-- ===== src/Tests/Monitors.antt =====
use fnal_artdaq.Base.{
  List, ◌++◌, take, drop, length, replicate, Outcome, ◌==◌, Ends, ℕ, ◌≡◌, ◌≢◌, ◌≤◌, ◌<◌, ◌+◌, ◌%◌,
  ◌⊎◌, refl, List, [], ◌∷◌, ◌++◌, Bool, true, false, none, some, ok, arith, ◌>>=◌,
}
use fnal_artdaq.FragCounter.{size_t_mod}
use fnal_artdaq.EventStore.{EventStore, flush_data}
use fnal_artdaq.EventStore.Flush.{markers}
use fnal_artdaq.RHandles.Receive.{from}
use fnal_artdaq.Aggregator.{AggregatorCore}
use fnal_artdaq.Aggregator.SharedMemory.{
  Segment, Copied, fits, skips, noted, copy_fragment, receive_fragment,
}
use fnal_artdaq.Aggregator.Handover.{receive_fragment-copy_fragment}
use fnal_artdaq.Aggregator.Process.{Turn, Locals, true_data_sender_count, send_subrun}
use fnal_artdaq.Aggregator.Loop.{check_complete}
use fnal_artdaq.Aggregator.Closing.{send_subrun_lem, check_complete_lem}
use fnal_artdaq.Parameters.{found}
use fnal_artdaq.Parameters.Keeping.{Answered}
use fnal_artdaq.Aggregator.Clients.{Boost}
use fnal_artdaq.Aggregator.Configure.{initialize}
use fnal_artdaq.Aggregator.Configuring.{OneRole, initialize-OneRole}
use fnal_artdaq.Tests.Builders.{sample_sets}
use fnal_artdaq.Aggregator.Remote.{RemoteCall, send_pause_and_resume}
use fnal_artdaq.Aggregator.Remotely.{Reaches, send_pause_and_resume-Reaches}
use fnal_artdaq.Aggregator.Files.{OutputFile, is_output, latest_loop, latest_file_size}
use fnal_artdaq.Aggregator.Paths.{directory_of, before_slash}
use fnal_artdaq.Commandable
use fnal_artdaq.Commandable.Machine.{Command, Context, init, start, stop}
use fnal_artdaq.Commandable.Stack.{IsStacked}
use fnal_artdaq.Commandable.Sound.{IsSafe}
use fnal_artdaq.Aggregator.{no_segment}
use fnal_artdaq.Aggregator.App
use fnal_artdaq.Aggregator.App.{AggregatorApp, Environment}
use fnal_artdaq.Aggregator.Guards.{IsSound}
use fnal_artdaq.Aggregator.Session.{session, aggregator_session_lem}
use fnal_artdaq.Tests.Sample.{SampleFragment, SampleEvent, sample_core, sample_fragment}
use fnal_artdaq.Tests.Store.{two_open, second}

-- The other process leaves the segment alone.
abbrev alone : ℕ → Segment → Segment
alone n seg = seg

abbrev free : Segment
free = record { has_fragment = 0; fragment_size_words = 0; fragment_innards = replicate 99 7 }

abbrev not_copied : Copied
not_copied = record { fragment = false; esr = false; eod = false }

not_skipped : skips sample_core true not_copied (sample_fragment 1 1) ≡ false
unfolding skips
not_skipped = refl

small : fits sample_core 100 (sample_fragment 1 1) ≡ true
unfolding fits
small = refl

receive_fragment-copy_fragment_example :
    let (c', count', t) =
      copy_fragment sample_core alone 100 true (sample_fragment 1 1) 500000 not_copied 3 free in
    (g : SampleFragment) × (extra : List ℕ) × (receive_fragment sample_core alone 5 true t
      ≡ (from 5 g, record t { has_fragment = 0 }))
    × (g ≡ sample_core.of_words (sample_core.words (sample_fragment 1 1) ++ extra))
    × (extra ≡ take 3 (drop 7 free.fragment_innards))
    × (length extra ≡ 3)
    × (sample_core.type_code g ≡ 1)
    × (sample_core.sequence_id g ≡ 1)
    × (sample_core.fragment_id g ≡ 1)
    × (c' ≡ noted sample_core not_copied (sample_fragment 1 1))
    × (count' ≡ (3 + 1) % size_t_mod)
receive_fragment-copy_fragment_example =
    receive_fragment-copy_fragment sample_core alone alone 100 500000 5 3 (sample_fragment 1 1)
      not_copied free refl not_skipped (λ e. omega (arith, e)) small (omega arith)

abbrev Sample : Type 0
Sample = AggregatorCore Bool SampleFragment SampleEvent

-- The data logger of one event builder, which has rank 5.
abbrev logger : Sample
logger = record {
  mpi_rank = 6;
  run_id = 7;
  art_initialized = true;
  init_string = "";
  max_fragment_size_words = 100;
  mpi_buffer_count = 1;
  first_data_sender_rank = 1;
  data_sender_count = 1;
  expected_events_per_bunch = 3;
  print_event_store_stats = false;
  inrun_recv_timeout_usec = 1000;
  endrun_recv_timeout_usec = 2000;
  pause_recv_timeout_usec = 1500;
  onmon_event_prescale = 0;
  is_data_logger = true;
  is_online_monitor = false;
  receiver = none;
  event_store = some two_open;
  previous_pset = true;
  stop_requested = false;
  local_pause_requested = false;
  processing_fragments = true;
  event_count_in_run = 4;
  event_count_in_subrun = 4;
  subrun_start_time = 0;
  disk_writing_directory = "";
  xmlrpc_client_lists = [];
  file_close_threshold_bytes = 0;
  file_close_timeout_secs = 0;
  file_close_event_count = 0;
  system_pause_requested = false;
  pauses_started = 0;
  shm_segment = true;
  shm = some free;
  fragment_count_to_shm = 0;
}

abbrev turn : Turn SampleFragment
turn = record {
  cancels = λ n. true;
  polls = λ n. [];
  waited = record { which = none; source = 1; fragment = sample_fragment 1 1 };
  before = λ n seg. seg;
  others = λ n. alone;
  stop_before = false;
  pause_before = false;
  stop_after = false;
  pause_after = false;
  attempts = [];
  accepted = true;
  flushes = λ n. true;
  subrun_accepted = true;
  resumed = false;
  now = 10;
  latest_file_size = 0;
}

-- Two fragments received and two sent, with the message about the end of the subrun.
abbrev locals : Locals SampleFragment
locals = record {
  received = 0 ∷ 2 ∷ [];
  sent = 0 ∷ 2 ∷ [];
  eod_fragments_received = 1;
  end_subrun_msg = some second;
  copied = not_copied;
}

send_subrun_lem_sample :
    (t : EventStore SampleEvent) × (xs : List (ℕ × SampleEvent)) × (ys : List (ℕ × SampleEvent))
    × (e : SampleEvent) × (send_subrun sample_core turn second logger
        ≡ ok (record logger { event_store = some t }))
    × (xs ++ ys ≡ two_open.events)
    × (((flush_data sample_core (λ n. true) two_open).1 ≡ false) ⊎ (ys ≡ []))
    × (t.queue ≡ (two_open.queue ++ markers xs) ++ some e ∷ [])
    × (t.events ≡ ys)
    × (e.list ≡ second ∷ [])
    × (e.run ≡ 7)
    × (e.subrun ≡ 1)
send_subrun_lem_sample = send_subrun_lem sample_core turn second logger two_open refl

check_complete_lem_example :
    ((f : SampleFragment) × (locals.end_subrun_msg ≡ some f)
      × (true_data_sender_count logger ≤ 1)
      × ((true ≡ false) ⊎ (locals.received ≡ locals.sent))
      × (check_complete sample_core turn locals (logger, true) ≡ (
          send_subrun sample_core turn f logger >>= λ t.
          ok (record locals { end_subrun_msg = none }, (t, false)))))
    ⊎ ((check_complete sample_core turn locals (logger, true) ≡ ok (locals, (logger, true)))
        × ((locals.end_subrun_msg ≡ none)
            ⊎ ((1 < true_data_sender_count logger)
                ⊎ ((true ≡ true) × (locals.received ≢ locals.sent)))))
check_complete_lem_example = check_complete_lem sample_core turn locals logger refl

-- Nothing is split, and no number is read.
abbrev no_boost : Boost
no_boost = record { tokens = λ separator string. []; to_int = λ string. none }

initialize-OneRole_example :
    Ends (Answered OneRole) (initialize sample_sets (λ key p. found 100) no_boost true logger)
initialize-OneRole_example =
    initialize-OneRole sample_sets (λ key p. found 100) no_boost true logger refl

-- Two groups, and every other call is answered with success.
abbrev grouped : Sample
grouped = record logger {
  xmlrpc_client_lists = ("a" ∷ "b" ∷ []) ∷ ("c" ∷ []) ∷ [];
  system_pause_requested = true;
}

send_pause_and_resume-Reaches_example :
    let (calls, t) = send_pause_and_resume (λ n. n % 2 == 1) grouped in
    (pauses : List RemoteCall) × (resumes : List RemoteCall) × (calls ≡ pauses ++ resumes)
    × Reaches "daq.pause" ("a" ∷ "b" ∷ "c" ∷ []) pauses
    × Reaches "daq.resume" ("c" ∷ "a" ∷ "b" ∷ []) resumes
    × (t ≡ record grouped { system_pause_requested = false })
send_pause_and_resume-Reaches_example = send_pause_and_resume-Reaches (λ n. n % 2 == 1) grouped

-- The larger file is older, and the other file is no output of art.
abbrev listing : List OutputFile
listing =
    record { filename = "RootOutput-1.root"; last_write_time = 10; file_size = 900 }
    ∷ record { filename = "RootOutput-2.root"; last_write_time = 20; file_size = 100 }
    ∷ record { filename = "log"; last_write_time = 30; file_size = 5000 }
    ∷ []

latest_of_listing : latest_file_size (some listing) 40 "/data" ≡ 100
unfolding latest_file_size latest_loop is_output
latest_of_listing = refl

directory_of_file : directory_of "/data/run7/events.root" ≡ "/data/run7"
unfolding directory_of before_slash
directory_of_file = refl

abbrev meanwhile : Environment Bool SampleFragment SampleEvent
meanwhile = record {
  now = 10;
  attachment = no_segment;
  turns = record turn { stop_before = true; stop_after = true } ∷ [];
  data_answers = λ n. true;
  reader_result = 0;
  memory = logger;
}

abbrev orders : List (Environment Bool SampleFragment SampleEvent × Command Bool)
orders = (meanwhile, init true 1 2) ∷ (meanwhile, start 7 1 2) ∷ (meanwhile, stop 1 2) ∷ []

aggregator_session_lem_example :
    (y : Context (Outcome (AggregatorApp Bool SampleFragment SampleEvent))) × (session sample_core
        sample_sets
        (λ key p. found 100)
        no_boost
        (λ n. "7")
        orders
        (Commandable.new (record {
          external_request_status = true;
          report_string = "";
          members = ok (App.new 6 "agg");
        }))
      ≡ ok y)
    × IsStacked y
    × IsSafe IsSound (y.state, y.app)
aggregator_session_lem_example =
    aggregator_session_lem sample_core sample_sets (λ key p. found 100) no_boost (λ n. "7") 6 "agg"
      "" true orders
