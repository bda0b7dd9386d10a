-- ===== src/Aggregator/Process.antt =====
-- artdaq/Application/MPI2/AggregatorCore.cc, `process_fragments`: the loop that receives fragments
-- into the event store, shares some of them with the online monitor, and asks for new files.
use text.Mathlib.Text.{◌==◌ as str_eq}
use fnal_artdaq.Base.{
  ◌-◌, ℕ, ◌+◌, ◌%◌, List, [], ◌∷◌, Bool, true, false, not, ◌&&◌, ◌||◌, Option, none, some, Outcome,
  ok, fault, null_pointer, out_of_fuel, division_by_zero, or_fault, ◌>>=◌, ◌==◌, ltb, leb,
  if◌then◌else◌,
}
use fnal_artdaq.ArtdaqCore.{ArtdaqCore}
use fnal_artdaq.FragCounter.{size_t_mod}
use fnal_artdaq.EventStore.{flush_data, insert_or_reject, enqueue}
use fnal_artdaq.RHandles.{Arrival}
use fnal_artdaq.EventBuilder.Process.{Attempt}
use fnal_artdaq.Aggregator.SharedMemory.{Segment, Copied, copy_fragment}
use fnal_artdaq.Aggregator.{AggregatorCore, on_store}

-- What the environment does in one turn of the loop: MPI; the other process, before and in the waits
-- of the calls for the shared segment, which are numbered; the two flags as they are read; the
-- queue; the clock, the size of the latest file, and whether an earlier `sendPauseAndResume_` is
-- done.
pub record Turn (F : Type 0) : Type 0 where
  pub cancels : ℕ → Bool
  pub polls : ℕ → List (Arrival F)
  pub waited : Arrival F
  pub before : ℕ → Segment → Segment
  pub others : ℕ → ℕ → Segment → Segment
  pub stop_before : Bool
  pub pause_before : Bool
  pub stop_after : Bool
  pub pause_after : Bool
  pub attempts : List Attempt
  pub accepted : Bool
  pub flushes : ℕ → Bool
  pub subrun_accepted : Bool
  pub resumed : Bool
  pub now : ℕ
  pub latest_file_size : ℕ

-- The local variables of the loop.
pub record Locals (F : Type 0) : Type 0 where
  pub received : List ℕ
  pub sent : List ℕ
  pub eod_fragments_received : ℕ
  pub end_subrun_msg : Option F
  pub copied : Copied

module _ {P F E : Type 0} where
  unfoldable pub true_data_sender_count : AggregatorCore P F E → ℕ
  true_data_sender_count s = if s.is_online_monitor then 1 else s.data_sender_count

  unfoldable pub recv_timeout_usec : Turn F → AggregatorCore P F E → ℕ
  recv_timeout_usec turn s =
      if turn.stop_before
      then s.endrun_recv_timeout_usec
      else if turn.pause_before
      then s.pause_recv_timeout_usec
      else s.inrun_recv_timeout_usec

  -- Whether a timeout ends the loop.
  unfoldable pub timeout_ends : Turn F → AggregatorCore P F E → Bool
  unfolding recv_timeout_usec
  timeout_ends turn s =
      turn.stop_after && recv_timeout_usec turn s == s.endrun_recv_timeout_usec
      || turn.pause_after && recv_timeout_usec turn s == s.pause_recv_timeout_usec

  -- Whether the current file has enough events, or is open long enough, or is large enough; the
  -- size is looked at after thirty seconds, at every twentieth event. The first test of the time
  -- converts the difference to an unsigned number, so that it wraps when the clock has gone back; the
  -- second one is signed.
  unfoldable pub threshold_reached : ℕ → ℕ → AggregatorCore P F E → Bool
  threshold_reached now size s =
      ltb 0 s.file_close_event_count && leb s.file_close_event_count s.event_count_in_subrun
      || (ltb 0 s.file_close_timeout_secs
            && leb s.file_close_timeout_secs ((now + size_t_mod - s.subrun_start_time) % size_t_mod)
          || leb (s.subrun_start_time + 30) now
            && s.event_count_in_run % 20 == 0
            && (ltb 0 s.file_close_threshold_bytes && leb s.file_close_threshold_bytes size))

  -- "added automatic file closing"
  unfoldable pub check_file : Turn F → AggregatorCore P F E → AggregatorCore P F E
  unfolding threshold_reached
  check_file turn s =
      let pausing = s.system_pause_requested && not turn.resumed in
      if s.is_data_logger
        && not (str_eq s.disk_writing_directory "")
        && (not turn.stop_after && not pausing)
        && threshold_reached turn.now turn.latest_file_size s
      then record s { system_pause_requested = true; pauses_started = s.pauses_started + 1 }
      else record s { system_pause_requested = pausing }

module _ {P F E : Type 0} (core : ArtdaqCore F E) where
  -- The data that the store still holds, and then the message, as an event of its own.
  unfoldable pub send_subrun : Turn F → F → AggregatorCore P F E → Outcome (AggregatorCore P F E)
  unfolding on_store enqueue
  send_subrun turn f s =
      on_store
        (λ store.
          let t = (flush_data core turn.flushes store).0 in
          record t {
            queue =
                enqueue turn.subrun_accepted
                  (some (core.insert_fragment f (core.new_event s.run_id 1 0))) t.queue;
          })
        s

  -- The end of the loop for want of data: the message is sent if there is one.
  unfoldable pub give_up :
      Turn F → Locals F → AggregatorCore P F E → Outcome (Locals F × (AggregatorCore P F E × Bool))
  unfolding send_subrun
  give_up turn l s = elim l.end_subrun_msg [
    | none ↦ ok (l, (s, false))
    | some f ↦ send_subrun turn f s >>= λ t. ok (record l { end_subrun_msg = none }, (t, false))
  ]

  -- A call of `copyFragmentToSharedMemory_`, which is the n-th of the turn.
  unfoldable pub copy_to :
      Turn F → ℕ → ℕ → F → Locals F → AggregatorCore P F E → Locals F × AggregatorCore P F E
  unfolding copy_fragment
  copy_to turn n timeout_usec f l s = elim s.shm [
    | none ↦ (l, s)
    | some seg ↦
        let (c, count, t) =
          copy_fragment core (turn.others n) s.max_fragment_size_words true f timeout_usec l.copied
            s.fragment_count_to_shm (turn.before n seg) in
        (record l { copied = c }, record s { shm = some t; fragment_count_to_shm = count })
  ]

  -- The same if this is the data logger.
  unfoldable pub copy_if_logger :
      Turn F → ℕ → ℕ → F → Locals F → AggregatorCore P F E → Locals F × AggregatorCore P F E
  unfolding copy_to
  copy_if_logger turn n timeout_usec f l s =
      if s.is_data_logger then copy_to turn n timeout_usec f l s else (l, s)

  -- The call for every so many events.
  unfoldable pub copy_sample :
      Turn F → F → Locals F → AggregatorCore P F E → Outcome (Locals F × AggregatorCore P F E)
  unfolding copy_to
  copy_sample turn f l s =
      if s.is_data_logger
      then if s.onmon_event_prescale == 0
        then fault division_by_zero
        else ok (
            if s.event_count_in_run % s.onmon_event_prescale == 0
            then copy_to turn 0 0 f l s
            else (l, s))
      else ok (l, s)

  -- `++event_count_in_run_; ++event_count_in_subrun_;` for an event.
  unfoldable pub count_event : F → AggregatorCore P F E → AggregatorCore P F E
  count_event f s =
      if core.is_user_type (core.type_code f) || core.type_code f == core.data_type
      then record s {
        event_count_in_run = (s.event_count_in_run + 1) % size_t_mod;
        event_count_in_subrun = (s.event_count_in_subrun + 1) % size_t_mod;
      }
      else s

  -- The loop on `try_again`; the flag is `process_fragments`.
  unfoldable pub try_insert :
      List Attempt → F → AggregatorCore P F E → Outcome (AggregatorCore P F E × Bool)
  try_insert [] f s = fault out_of_fuel
  try_insert (a ∷ more) f s = do
    store ← or_fault s.event_store null_pointer
    (t, rejected) ← insert_or_reject core a.full a.accepted f store
    elim rejected [
      | none ↦ ok (record s { event_store = some t }, true)
      | some g ↦ elim (a.stop || a.pause) [
        | true ↦ ok (record s { event_store = some t }, false)
        | false ↦ try_insert more g (record s { event_store = some t })
      ]
    ]
