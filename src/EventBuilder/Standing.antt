-- ===== src/EventBuilder/Standing.antt =====
-- The mutex and the flag of a pause after each command of artdaq/Application/MPI2/EventBuilderCore.cc.
use fnal_artdaq.Base.{
  ℕ, ◌≡◌, refl, Bool, true, false, Outcome, ok, null_pointer, or_fault, if◌then◌else◌, Ends, ended,
  faulted, Ends-any, Ends-bind, Ends-if,
}
use fnal_artdaq.ArtdaqCore.{ArtdaqCore}
use fnal_artdaq.EventStore.{EventStore, start_run, start_subrun}
use fnal_artdaq.EventBuilder.{
  EventBuilderCore, start, stop, pause, resume, shutdown, lock, on_store, finish_run, finish_subrun,
}
use fnal_artdaq.Parameters.Keeping.{Answered}
use fnal_artdaq.EventBuilder.Unlocking.{unlock-IsFree}

module _ {P F E : Type 0} where
  -- The mutex is free, or locked, and the run is paused or not.
  abbrev pub Stands : Bool → Bool → EventBuilderCore P F E → Type 0
  Stands locked suspended b = (b.flush_mutex ≡ locked) × (b.run_is_paused ≡ suspended)

  abbrev pub Answers : Bool → Bool → EventBuilderCore P F E × Bool → Type 0
  Answers locked suspended (b, good) = Stands locked suspended b × (good ≡ true)

  abbrev pub Suspended : Bool → EventBuilderCore P F E → Type 0
  Suspended suspended b = b.run_is_paused ≡ suspended

  abbrev pub Waits : Bool → (EventBuilderCore P F E → Outcome (EventBuilderCore P F E)) → Type 0
  Waits suspended wait =
      (b : EventBuilderCore P F E) → Suspended suspended b → Ends (Suspended suspended) (wait b)

  lock-Stands :
      (suspended : Bool) (wait : EventBuilderCore P F E → Outcome (EventBuilderCore P F E))
      (s : EventBuilderCore P F E)
      → Ends (Suspended suspended) (wait s)
      → Ends (Stands true suspended) (lock wait s)
  unfolding lock
  lock-Stands suspended wait s waits =
      Ends-bind waits λ t h. Ends-if t.flush_mutex faulted (ended (refl, h))

  on_store-Stands :
      (locked suspended : Bool) (change : EventStore E → EventStore E) (s : EventBuilderCore P F E)
      → Stands locked suspended s
      → Ends (Stands locked suspended) (on_store change s)
  unfolding on_store
  on_store-Stands locked suspended change s h =
      Ends-any (or_fault s.event_store null_pointer) λ st. ended h

  pub start-Stands :
      (run : ℕ) (wait : EventBuilderCore P F E → Outcome (EventBuilderCore P F E))
      (s : EventBuilderCore P F E)
      → Waits false wait
      → Ends (Answers true false) (start run wait s)
  unfolding start
  start-Stands run wait s waits =
      Ends-bind
        (lock-Stands false wait _ (
          waits
            (record s {
              stop_requested = false;
              pause_requested = false;
              run_is_paused = false;
              run_id = run;
              eod_fragments_received = 0;
              fragment_count_in_run = 0;
            })
            refl))
        λ t h. Ends-bind (on_store-Stands true false (start_run run) t h) λ u h'. ended (h', refl)

  pub resume-Stands :
      (wait : EventBuilderCore P F E → Outcome (EventBuilderCore P F E))
      (s : EventBuilderCore P F E)
      → Waits true wait
      → Suspended true s
      → Ends (Answers true false) (resume wait s)
  unfolding resume
  resume-Stands wait s waits h =
      Ends-bind
        (lock-Stands true wait _
          (waits (record s { eod_fragments_received = 0; pause_requested = false }) h))
        λ t h'.
          Ends-bind (on_store-Stands true true start_subrun t h')
            λ u h''. ended ((h''.0, refl), refl)

module _ {P F E : Type 0} (core : ArtdaqCore F E) where
  pub stop-Stands :
      (subruns runs : ℕ → Bool) (wait : EventBuilderCore P F E → Outcome (EventBuilderCore P F E))
      (s : EventBuilderCore P F E)
      → Ends (Answers false false) (stop core subruns runs wait s)
  unfolding stop
  stop-Stands subruns runs wait s = Ends-any (or_fault s.event_store null_pointer) λ logged.
      Ends-any (lock wait (record s { stop_requested = true })) λ t.
        Ends-any (if t.run_is_paused then ok t else on_store (finish_subrun core subruns) t) λ u.
          Ends-any (on_store (finish_run core runs) u)
            λ v. Ends-bind (unlock-IsFree v) λ w h. ended ((h, refl), refl)

  pub pause-Stands :
      (subruns : ℕ → Bool) (wait : EventBuilderCore P F E → Outcome (EventBuilderCore P F E))
      (s : EventBuilderCore P F E)
      → Ends (Answers false true) (pause core subruns wait s)
  unfolding pause
  pause-Stands subruns wait s = Ends-any (or_fault s.event_store null_pointer) λ logged.
      Ends-any (lock wait (record s { pause_requested = true })) λ t.
        Ends-any (on_store (finish_subrun core subruns) t)
          λ u. Ends-bind (unlock-IsFree u) λ w h. ended ((h, refl), refl)

  pub shutdown-Stands :
      (answers : ℕ → Bool) (reader_result : ℕ) (s : EventBuilderCore P F E)
      → Stands false false s
      → Ends (Answered (Stands false false)) (shutdown core answers reader_result s)
  unfolding shutdown
  shutdown-Stands answers reader_result s h =
      Ends-any (or_fault s.event_store null_pointer) λ st. ended h
