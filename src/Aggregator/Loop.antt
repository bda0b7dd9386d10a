-- ===== src/Aggregator/Loop.antt =====
-- artdaq/Application/MPI2/AggregatorCore.cc, `process_fragments`: what one fragment does, one turn,
-- the loop, and the function, which makes the receiver and attaches to the shared memory before.
use fnal_artdaq.Base.{
  ℕ, ◌+◌, ◌%◌, List, [], ◌∷◌, Bool, true, false, not, ◌&&◌, none, some, Outcome, ok, fault,
  null_pointer, out_of_fuel, or_fault, ◌>>=◌, ◌==◌, leb, if◌then◌else◌, get_elem?, set, replicate,
}
use fnal_artdaq.ArtdaqCore.{ArtdaqCore}
use fnal_artdaq.FragCounter.{size_t_mod}
use fnal_artdaq.EventStore.{insert, enqueue}
use fnal_artdaq.RHandles
use fnal_artdaq.RHandles.Receive.{Received, any_source, recv_timeout, from, recv_fragment}
use fnal_artdaq.EventBuilder.Process.{outstanding}
use fnal_artdaq.Aggregator.SharedMemory.{receive_fragment}
use fnal_artdaq.Aggregator.{AggregatorCore, Attachment, on_store, attach, detach}
use fnal_artdaq.Aggregator.Process.{
  Turn, Locals, true_data_sender_count, recv_timeout_usec, timeout_ends, check_file, send_subrun,
  give_up, copy_sample, copy_if_logger, count_event, try_insert,
}

-- `fragments_received[senderSlot] += 1;`, and no copy of the fragment yet.
abbrev pub counted : {F : Type 0} → ℕ → ℕ → Locals F → Locals F
counted slot n l = record l {
  received = set l.received slot ((n + 1) % size_t_mod);
  copied = record (l.copied) { fragment = false };
}

module _ {P F E : Type 0} (core : ArtdaqCore F E) where
  -- "The init fragment should always be the first fragment out of the EventBuilder."
  unfoldable pub take_init :
      Turn F → F → Locals F → AggregatorCore P F E → Outcome (Locals F × AggregatorCore P F E)
  unfolding copy_if_logger on_store enqueue
  take_init turn f l s =
      if core.type_code f == core.init_type
      then (do
        let (l', t) = copy_if_logger core turn 1 500000 f l s
        let event = core.insert_fragment f (core.new_event t.run_id 1 (core.sequence_id f))
        u ←
            on_store
              (λ store. record store { queue = enqueue turn.accepted (some event) store.queue }) t
        ok (l', record u { art_initialized = true }))
      else ok (l, s)

  -- `event_store_ptr_->insert`: the data logger insists, the online monitor does not.
  unfoldable pub take_data :
      Turn F → F → AggregatorCore P F E → Outcome (AggregatorCore P F E × Bool)
  unfolding try_insert
  take_data turn f s = if s.is_data_logger then try_insert core turn.attempts f s else (do
    store ← or_fault s.event_store null_pointer
    t ← insert core turn.accepted f store
    ok (record s { event_store = some t }, true))

  -- A fragment from a slot once art is initialized; the flag is `process_fragments`.
  unfoldable pub take_event :
      Turn F
      → ℕ
      → F
      → Locals F
      → AggregatorCore P F E
      → Outcome (Locals F × (AggregatorCore P F E × Bool))
  unfolding take_data copy_if_logger
  take_event turn slot f l s =
      let (shared, t) = copy_if_logger core turn 1 1000000 f l s in
      if core.type_code f == core.data_type
      then (take_data turn f s >>= λ r. ok (l, r))
      else if core.type_code f == core.end_of_subrun
      then ok (record shared { end_subrun_msg = some f }, (t, true))
      else if core.type_code f == core.end_of_data
      then ok (
        record shared {
          eod_fragments_received = (shared.eod_fragments_received + 1) % size_t_mod;
          sent = set shared.sent slot ((core.first_word f + 1) % size_t_mod);
        },
        (t, true),
      )
      else ok (l, (s, true))

  -- "If we've received EOD fragments from all of the EventBuilders …"; the data logger verifies that
  -- it has all that was sent.
  unfoldable pub check_complete :
      Turn F
      → Locals F
      → AggregatorCore P F E × Bool
      → Outcome (Locals F × (AggregatorCore P F E × Bool))
  unfolding true_data_sender_count outstanding send_subrun
  check_complete turn l (s, going) = elim l.end_subrun_msg [
    | none ↦ ok (l, (s, going))
    | some f ↦
        if leb (true_data_sender_count s) l.eod_fragments_received
          && not (s.is_data_logger && outstanding l.received l.sent)
        then (send_subrun core turn f s >>= λ t.
            ok (record l { end_subrun_msg = none }, (t, false)))
        else ok (l, (s, going))
  ]

  -- A fragment from a slot within bounds, whose counter stands at `n`.
  unfoldable pub take_fragment :
      Turn F
      → ℕ
      → ℕ
      → F
      → Locals F
      → AggregatorCore P F E
      → Outcome (Locals F × (AggregatorCore P F E × Bool))
  unfolding count_event copy_sample take_init take_event check_file check_complete
  take_fragment turn slot n f l s =
      if core.type_code f == core.invalid_type then ok (counted slot n l, (s, true)) else (do
        (l1, s1) ← copy_sample core turn f (counted slot n l) (count_event core f s)
        (l2, (s2, going)) ←
            if s1.art_initialized
            then take_event turn slot f l1 s1
            else (take_init turn f l1 s1 >>= λ r. ok (r.0, (r.1, true)))
        check_complete turn l2 (check_file turn s2, going))

  -- The three ways to wait for a fragment.
  unfoldable pub receive :
      Turn F → AggregatorCore P F E → Outcome (Received F × AggregatorCore P F E)
  unfolding recv_timeout_usec receive_fragment
  receive turn s =
      if s.is_data_logger
      then (do
        receiver ← or_fault s.receiver null_pointer
        (result, r) ←
            recv_fragment core turn.cancels turn.polls turn.waited (recv_timeout_usec turn s)
              receiver
        ok (result, record s { receiver = some r }))
      else if s.is_online_monitor
      then elim s.shm [
        | none ↦ ok (recv_timeout, s)
        | some seg ↦
            let (result, t) =
              receive_fragment core (turn.others 0) s.first_data_sender_rank true
                (turn.before 0 seg) in
            ok (result, record s { shm = some t })
      ]
      else ok (recv_timeout, s)

  -- One turn of the loop. The result is the flag `process_fragments`, which the next turn tests.
  unfoldable pub turn_of :
      Turn F → Locals F → AggregatorCore P F E → Outcome (Locals F × (AggregatorCore P F E × Bool))
  unfolding receive timeout_ends give_up take_fragment
  turn_of turn l s = do
    (result, t) ← receive turn s
    elim result [
      | any_source ↦ give_up core turn l t
      | recv_timeout ↦ if timeout_ends turn t then give_up core turn l t else ok (l, (t, true))
      | from slot f ↦ elim (get_elem? l.received slot) [
        | none ↦ ok (l, (t, true))
        | some n ↦ take_fragment turn slot n f l t
      ]
    ]

  unfoldable pub process_loop :
      List (Turn F) → Locals F → AggregatorCore P F E → Outcome (Locals F × AggregatorCore P F E)
  unfolding turn_of
  process_loop [] l s = fault out_of_fuel
  process_loop (turn ∷ more) l s = do
    (l', (t, going)) ← turn_of turn l s
    elim going [ true ↦ process_loop more l' t | false ↦ ok (l', t) ]

  -- `receiver_ptr_.reset(…)` for the data logger, and `attachToSharedMemory_`.
  unfoldable pub prepare : Attachment → AggregatorCore P F E → Outcome (AggregatorCore P F E)
  unfolding true_data_sender_count attach
  prepare answer s =
      if s.is_data_logger
      then (do
        r ←
            RHandles.new s.mpi_buffer_count s.max_fragment_size_words (true_data_sender_count s)
              s.first_data_sender_rank
        ok (attach answer false (record s { receiver = some r })))
      else ok (attach answer true s)

  -- The log message at the end reads the store's subrun.
  unfoldable pub process_fragments :
      Attachment → List (Turn F) → AggregatorCore P F E → Outcome (AggregatorCore P F E)
  unfolding prepare process_loop true_data_sender_count detach
  process_fragments answer turns s = do
    let slots = true_data_sender_count s + s.first_data_sender_rank
    t ← prepare answer (record s { processing_fragments = true })
    (l, u) ←
        process_loop turns
          (record {
            received = replicate slots 0;
            sent = replicate slots 0;
            eod_fragments_received = 0;
            end_subrun_msg = none;
            copied = record { fragment = false; esr = false; eod = false };
          })
          t
    logged ← or_fault u.event_store null_pointer
    let (v, destroyed) = detach u.is_online_monitor (record u { receiver = none })
    ok (record v { processing_fragments = false })
