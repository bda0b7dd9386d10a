-- ===== src/EventBuilder/Ending.antt =====
-- The end of a run and of a subrun in artdaq/Application/MPI2/EventBuilderCore.cc: three attempts
-- to tell art, after the thread of `process_fragments` has given the mutex back.
use fnal_artdaq.Base.{
  ℕ, ◌≡◌, refl, ap, List, [], ◌∷◌, ◌++◌, Bool, true, false, none, some, ok, ◌||◌, if◌then◌else◌,
  arith, Ends-of,
}
use fnal_artdaq.ArtdaqCore.{ArtdaqCore}
use fnal_artdaq.EventStore.{end_of_data, EventStore, enqueue, end_run, end_subrun, marker_event}
use fnal_artdaq.EventBuilder.{
  EventBuilderCore, three_tries, retry_loop, finish_run, finish_subrun, lock, unlock, on_store,
  stop, pause, shutdown, ended,
}
use fnal_artdaq.EventBuilder.Process.{Turn, process_fragments}
use fnal_artdaq.EventBuilder.Unlocking.{process_fragments-IsFree}
use fnal_artdaq.EventBuilder.Framing.{IsStable, process_fragments-keeps}

-- The environment accepts one of the first three attempts.
abbrev pub one_accepted : (ℕ → Bool) → Bool
one_accepted answers = answers 0 || (answers 1 || answers 2)

-- An operation that does something only if it is accepted, and says so.
module _ {S : Type 0} (op : Bool → S → S × Bool) (done : S → S) where
  three_tries_lem :
      (answers : ℕ → Bool) (s : S)
      → ((t : S) → op true t ≡ (done t, true))
      → ((t : S) → op false t ≡ (t, false))
      → three_tries op answers s
        ≡ (if one_accepted answers then done s else s, one_accepted answers)
  unfolding three_tries retry_loop
  three_tries_lem answers s accept refuse = ground (arith, accept s, refuse s)

module _ {F E : Type 0} (core : ArtdaqCore F E) where
  -- The store with one marker of a system type at the end of its queue.
  abbrev pub marked : ℕ → EventStore E → EventStore E
  marked system_type st = record st {
    queue = st.queue ++ some (marker_event core system_type st) ∷ [];
  }

  -- The same if one of three attempts is accepted.
  abbrev pub told : ℕ → (ℕ → Bool) → EventStore E → EventStore E
  told system_type answers st = if one_accepted answers then marked system_type st else st

  finish_run_lem :
      (answers : ℕ → Bool) (st : EventStore E)
      → finish_run core answers st ≡ told core.end_of_run answers st
  unfolding finish_run end_run enqueue
  finish_run_lem answers st =
      ap (λ r. r.0)
        (three_tries_lem (end_run core) (marked core.end_of_run) answers st (λ t. refl) (λ t. refl))

  finish_subrun_lem :
      (answers : ℕ → Bool) (st : EventStore E)
      → finish_subrun core answers st ≡ told core.end_of_subrun answers st
  unfolding finish_subrun end_subrun enqueue
  finish_subrun_lem answers st =
      ap (λ r. r.0)
        (three_tries_lem (end_subrun core) (marked core.end_of_subrun) answers st (λ t. refl)
          (λ t. refl))

-- What the thread of the loop leaves: an event store, and the flag of a pause.
module _ {P F E : Type 0} (b : Bool) where
  abbrev Kept : EventBuilderCore P F E → Type 0
  Kept s = ((st : EventStore E) × (s.event_store ≡ some st)) × (s.run_is_paused ≡ b)

  Kept-IsStable : IsStable Kept
  Kept-IsStable = record { counts = λ _ _ _ _ s q. q; store = λ st s q. ((st, refl), q.1) }

module _ {P F E : Type 0} (core : ArtdaqCore F E) (turns : List (Turn F)) where
  -- While the loop runs, with the mutex locked, `stop` gets the mutex when the loop returns. It
  -- then tells art of the end of the subrun, unless the run is paused, and of the end of the run,
  -- each if one of three attempts is accepted. It always answers `true`, with the mutex unlocked.
  pub stop_lem :
      (subrun_answers run_answers : ℕ → Bool) (s t : EventBuilderCore P F E) (before : EventStore E)
      → s.event_store ≡ some before
      → s.flush_mutex ≡ true
      → process_fragments core turns (record s { stop_requested = true }) ≡ ok t
      → (st : EventStore E) × (t.event_store ≡ some st)
        × (stop core subrun_answers run_answers (process_fragments core turns) s
            ≡ ok (
              record t {
                event_store = some (
                    told core core.end_of_run run_answers (
                      if s.run_is_paused
                      then st
                      else told core core.end_of_subrun subrun_answers st));
                flush_mutex = false;
                run_is_paused = false;
              },
              true,
            ))
  unfolding stop lock unlock on_store
  stop_lem subrun_answers run_answers s t before has held run =
      let ((st, e), same) =
        Ends-of
          (process_fragments-keeps (Kept s.run_is_paused) (Kept-IsStable s.run_is_paused) core turns
            (record s { stop_requested = true }) ((before, has), refl))
          run in
      let free =
        Ends-of (process_fragments-IsFree core turns (record s { stop_requested = true }) held)
          run in
      (
        st,
        e,
        let told_subrun = told core core.end_of_subrun subrun_answers st in
            ground (
              arith,
              has,
              run,
              free,
              e,
              same,
              finish_subrun_lem core subrun_answers st,
              finish_run_lem core run_answers st,
              finish_run_lem core run_answers told_subrun,
            ),
      )

  -- `pause` gets the mutex when the loop returns, tells art of the end of the subrun if one of three
  -- attempts is accepted, and answers `true`, with the mutex unlocked and the run paused.
  pub pause_lem :
      (subrun_answers : ℕ → Bool) (s t : EventBuilderCore P F E) (before : EventStore E)
      → s.event_store ≡ some before
      → s.flush_mutex ≡ true
      → process_fragments core turns (record s { pause_requested = true }) ≡ ok t
      → (st : EventStore E) × (t.event_store ≡ some st)
        × (pause core subrun_answers (process_fragments core turns) s
            ≡ ok (
              record t {
                event_store = some (told core core.end_of_subrun subrun_answers st);
                flush_mutex = false;
                run_is_paused = true;
              },
              true,
            ))
  unfolding pause lock unlock on_store
  pause_lem subrun_answers s t before has held run =
      let ((st, e), same) =
        Ends-of
          (process_fragments-keeps (Kept s.run_is_paused) (Kept-IsStable s.run_is_paused) core turns
            (record s { pause_requested = true }) ((before, has), refl))
          run in
      let free =
        Ends-of (process_fragments-IsFree core turns (record s { pause_requested = true }) held)
          run in
      (st, e, ground (arith, has, run, free, e, finish_subrun_lem core subrun_answers st))

module _ {P F E : Type 0} (core : ArtdaqCore F E) where
  -- `shutdown` puts the null pointer at the end of the queue, and answers `true`, exactly if one of
  -- three attempts is accepted; otherwise it changes nothing and answers `false`.
  pub shutdown_lem :
      (answers : ℕ → Bool) (reader_result : ℕ) (s : EventBuilderCore P F E) (st : EventStore E)
      → s.event_store ≡ some st
      → shutdown core answers reader_result s
        ≡ ok (
          record s {
            event_store =
                some (
                  if one_accepted answers then record st { queue = st.queue ++ none ∷ [] } else st);
          },
          one_accepted answers,
        )
  unfolding shutdown end_of_data enqueue
  shutdown_lem answers reader_result s st has = ground (
    arith,
    has,
    three_tries_lem (ended core reader_result)
        (λ st'. record st' { queue = st'.queue ++ none ∷ [] }) answers st (λ t. refl) (λ t. refl),
  )
