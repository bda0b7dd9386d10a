-- ===== src/EventStore.antt =====
-- artdaq/DAQrate/EventStore.hh and EventStore.cc: fragments are collected into events, and events
-- that are complete go to the queue that art reads. Every enqueue attempt is answered by the
-- environment (the reader thread makes room in time, or does not), and so is every `full()`.
pub mod Keys
pub mod Insert
pub mod Flush
pub mod Stale
pub mod Reject
pub mod Conservation
use fnal_artdaq.Base.{
  ℕ, suc, ◌+◌, ◌-◌, ◌/◌, ◌%◌, List, [], ◌∷◌, ◌++◌, map, Bool, true, false, not, ◌&&◌, Option, none,
  some, Outcome, ok, fault, assertion, division_by_zero, require, ◌>>=◌, ◌>>◌, ltb, leb, ◌==◌,
  if◌then◌else◌, length,
}
use fnal_artdaq.ArtdaqCore.{ArtdaqCore}
use fnal_artdaq.OrderedMap.{find, put, erase}

abbrev pub uint64_mod : ℕ
uint64_mod = 0x1_0000_0000_0000_0000

abbrev pub uint32_mod : ℕ
uint32_mod = 0x1_0000_0000

-- `queue` is what the store has put onto the queue so far, oldest first; `none` is the null pointer
-- that marks the end of data. The two statistics are the samples of the store's monitored
-- quantities, `none` while a quantity does not exist.
pub record EventStore (E : Type 0) : Type 0 where
  pub id : ℕ
  pub num_fragments_per_event : ℕ
  pub max_queue_size : ℕ
  pub run_id : ℕ
  pub subrun_id : ℕ
  pub events : List (ℕ × E)
  pub queue : List (Option E)
  pub seq_id_modulus : ℕ
  pub last_flushed_seq_id : ℕ
  pub highest_seq_id_seen : ℕ
  pub enq_check_count : ℕ
  pub event_rate : Option (List ℕ)
  pub incomplete_events : Option (List ℕ)

-- `if (mqPtr.get() != 0) mqPtr->addSample(...)`
unfoldable pub add_sample : ℕ → Option (List ℕ) → Option (List ℕ)
add_sample n none = none
add_sample n (some l) = some (l ++ n ∷ [])

-- `enqTimedWait`, answered by `accepted`.
unfoldable pub enqueue : {E : Type 0} → Bool → Option E → List (Option E) → List (Option E)
enqueue accepted e q = if accepted then q ++ e ∷ [] else q

-- `initStatistics_`: a quantity that is missing is made, and both are reset.
unfoldable pub init_statistics : {E : Type 0} → EventStore E → EventStore E
init_statistics s = record s { event_rate = some []; incomplete_events = some [] }

-- The constructors with a queue size and a check count.
unfoldable pub new : {E : Type 0} → ℕ → ℕ → ℕ → ℕ → ℕ → EventStore E
unfolding init_statistics
new num_fragments_per_event run store_id max_art_queue_size enq_check_count =
    init_statistics (record {
      id = store_id;
      num_fragments_per_event = num_fragments_per_event;
      max_queue_size = max_art_queue_size;
      run_id = run;
      subrun_id = 0;
      events = [];
      queue = [];
      seq_id_modulus = 1;
      last_flushed_seq_id = 0;
      highest_seq_id_seen = 0;
      enq_check_count = enq_check_count;
      event_rate = none;
      incomplete_events = none;
    })

-- The constructors without them.
unfoldable pub new_default : {E : Type 0} → ℕ → ℕ → ℕ → EventStore E
unfolding new
new_default num_fragments_per_event run store_id = new num_fragments_per_event run store_id 50 5000

-- The key of a sequence ID, in the arithmetic of `uint64_t`.
unfoldable pub event_key : ℕ → ℕ → ℕ → ℕ
event_key modulus last_flushed seq =
    ((seq + uint64_mod - (1 + last_flushed) % uint64_mod) % uint64_mod / modulus + 1) % uint64_mod

-- The second loop of `flushData`.
unfoldable pub erase_all : {E : Type 0} → List ℕ → List (ℕ × E) → List (ℕ × E)
erase_all [] m = m
erase_all (k ∷ ks) m = erase_all ks (erase k m)

-- `while (loopCount < enq_check_count_ && queue_.full()) ++loopCount`; `polls n` is the answer of
-- the n-th call of `full()`, and the result is the number of the next call.
unfoldable pub wait_while_full : (ℕ → Bool) → ℕ → ℕ → ℕ
wait_while_full polls ℕ.zero n = n
wait_while_full polls (suc left) n =
    let later = wait_while_full polls left (n + 1) in if polls n then later else n + 1

module _ {F E : Type 0} (core : ArtdaqCore F E) where
  -- The event under a key, or a new one.
  abbrev pub open_event : EventStore E → ℕ → ℕ → Option E → E
  open_event s key seq none = core.new_event s.run_id s.subrun_id seq
  open_event s key seq (some e) = e

  -- The fragment goes into the event under its key; a complete event leaves the map for the queue.
  unfoldable pub store_fragment : Bool → F → ℕ → EventStore E → EventStore E
  unfolding add_sample enqueue
  store_fragment accepted f key s =
      let e = core.insert_fragment f (open_event s key (core.sequence_id f) (find key s.events)) in
      if core.num_fragments e == s.num_fragments_per_event
      then record s {
        events = erase key s.events;
        event_rate = add_sample (core.word_count (core.mark_complete e)) s.event_rate;
        queue = enqueue accepted (some (core.mark_complete e)) s.queue;
      }
      else record s { events = put key e s.events }

  -- `insert(pfrag, printWarning)`; the flag only chooses the severity of a log message.
  unfoldable pub insert : Bool → F → EventStore E → Outcome (EventStore E)
  insert accepted f s = do
    require (not (core.fragment_id f == core.invalid_fragment_id)) assertion
    let seq = core.sequence_id f
    let seen = record s {
      highest_seq_id_seen = if ltb s.highest_seq_id_seen seq then seq else s.highest_seq_id_seen;
    }
    require (not (s.seq_id_modulus == 0)) division_by_zero
    let stored =
        store_fragment accepted f (event_key s.seq_id_modulus s.last_flushed_seq_id seq) seen
    ok (record stored {
      incomplete_events = add_sample (length (stored.events)) (stored.incomplete_events);
    })

  -- `insert(pfrag, rejectedFragment)`: the fragment that is handed back stands for `false`.
  unfoldable pub insert_or_reject :
      (ℕ → Bool) → Bool → F → EventStore E → Outcome (EventStore E × Option F)
  insert_or_reject polls accepted f s =
      if polls 0 && polls (wait_while_full polls s.enq_check_count 1)
      then ok (s, some f)
      else insert accepted f s >>= λ t. ok (t, none)

  -- The loop of `flushData`: the keys to erase, and the store with the queue and the samples.
  -- `answers n` answers the n-th attempt to enqueue.
  unfoldable pub flush_loop : (ℕ → Bool) → ℕ → List (ℕ × E) → EventStore E → List ℕ × EventStore E
  unfolding add_sample
  flush_loop answers n [] s = ([], s)
  flush_loop answers n ((key, e) ∷ more) s =
      let sampled = record s { event_rate = add_sample (core.word_count e) s.event_rate } in
      let rest =
        flush_loop answers (suc n) more (record sampled { queue = s.queue ++ some e ∷ [] }) in
      if answers n then (key ∷ rest.0, rest.1) else ([], sampled)

  unfoldable pub flush_data : (ℕ → Bool) → EventStore E → EventStore E × Bool
  flush_data answers s =
      let (flushed, t) = flush_loop answers 0 s.events s in
      (
        record t {
          events = erase_all flushed t.events;
          last_flushed_seq_id = t.highest_seq_id_seen;
        },
        leb (length s.events) (length flushed),
      )

  -- `endOfData`: the value that the reader's thread returns, for `true`, or `none` for `false`.
  unfoldable pub end_of_data : Bool → ℕ → EventStore E → EventStore E × Option ℕ
  unfolding enqueue
  end_of_data accepted reader_result s = (
    record s { queue = enqueue accepted none s.queue },
    if accepted then some reader_result else none,
  )

  -- The event of one fragment that `endRun` and `endSubrun` send: one word, which is the store's id.
  unfoldable pub marker_event : ℕ → EventStore E → E
  marker_event system_type s =
      core.insert_fragment
        (core.set_first_word s.id (core.set_system_type system_type (core.new_fragment 1)))
        (core.new_event s.run_id s.subrun_id 0)

  unfoldable pub end_run : Bool → EventStore E → EventStore E × Bool
  unfolding enqueue marker_event
  end_run accepted s = (
    record s { queue = enqueue accepted (some (marker_event core.end_of_run s)) s.queue },
    accepted,
  )

  unfoldable pub end_subrun : Bool → EventStore E → EventStore E × Bool
  unfolding enqueue marker_event
  end_subrun accepted s = (
    record s { queue = enqueue accepted (some (marker_event core.end_of_subrun s)) s.queue },
    accepted,
  )

unfoldable pub set_seq_id_modulus : {E : Type 0} → ℕ → EventStore E → EventStore E
set_seq_id_modulus m s = record s { seq_id_modulus = m }

unfoldable pub start_run : {E : Type 0} → ℕ → EventStore E → EventStore E
start_run run s = record s {
  run_id = run;
  subrun_id = 1;
  last_flushed_seq_id = 0;
  highest_seq_id_seen = 0;
}

unfoldable pub start_subrun : {E : Type 0} → EventStore E → EventStore E
start_subrun s = record s { subrun_id = (s.subrun_id + 1) % uint32_mod }
