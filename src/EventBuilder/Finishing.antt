-- ===== src/EventBuilder/Finishing.antt =====
-- How the loop of artdaq/Application/MPI2/EventBuilderCore.cc comes to its end when nothing arrives
-- any more.
use fnal_artdaq.Base.{
  ◌>>=◌, ℕ, zero, suc, ◌+◌, ◌<◌, ◌≡◌, ◌≢◌, ◌⊎◌, inl, inr, refl, List, [], ◌∷◌, ◌++◌, Bool, true,
  false, some, ok, All, arith,
}
use fnal_artdaq.ArtdaqCore.{ArtdaqCore}
use fnal_artdaq.EventStore.{EventStore, flush_data}
use fnal_artdaq.RHandles.{RHandles, Arrival, any_source_active}
use fnal_artdaq.RHandles.Receive.{
  recv_fragment, recv_timeout, poll, poll_all, poll_loop, complete, sleep_loops,
}
use fnal_artdaq.EventBuilder.{EventBuilderCore, on_store, unlock}
use fnal_artdaq.EventBuilder.Process.{
  Turn, Tallies, finish, on_timeout, turn_of, process_loop, timeout_ends, recv_timeout_usec,
}

poll_loop-quiet :
    {F : Type 0} (polls : ℕ → List (Arrival F)) (loops idx : ℕ)
    → ((n : ℕ) → polls n ≡ [])
    → poll_loop polls loops idx ≡ []
unfolding poll_loop
poll_loop-quiet polls zero idx quiet = refl
poll_loop-quiet polls (suc loops) idx quiet =
    rw (poll_loop, quiet idx) (poll_loop-quiet polls loops (idx + 1) quiet)

poll_all-quiet :
    {F : Type 0} (polls : ℕ → List (Arrival F)) (timeout : ℕ)
    → ((n : ℕ) → polls n ≡ [])
    → poll_all polls timeout ≡ []
unfolding poll_all
poll_all-quiet polls timeout quiet =
    rw (poll_all, quiet 0) (poll_loop-quiet polls (sleep_loops timeout) 1 quiet)

module _ {F E : Type 0} (core : ArtdaqCore F E) where
  recv_fragment-quiet :
      (cancels : ℕ → Bool) (polls : ℕ → List (Arrival F)) (waited : Arrival F) (timeout : ℕ)
      (r : RHandles F)
      → r.ready ≡ []
      → any_source_active r ≡ true
      → 0 < timeout
      → ((n : ℕ) → polls n ≡ [])
      → recv_fragment core cancels polls waited timeout r ≡ ok (recv_timeout, r)
  unfolding recv_fragment poll complete
  recv_fragment-quiet cancels polls waited timeout r ready active waits quiet =
      ground (arith, ready, active, waits, poll_all-quiet polls timeout quiet)

-- A core whose receiver waits for a source that has not sent all it announced, with nothing left
-- from earlier polls.
pub record IsWaiting {P F E : Type 0} (s : EventBuilderCore P F E) : Type 0 where
  pub receiver : RHandles F
  pub receiver_is : s.receiver ≡ some receiver
  pub none_ready : receiver.ready ≡ []
  pub active : any_source_active receiver ≡ true
  pub inrun_positive : 0 < s.inrun_recv_timeout_usec
  pub endrun_positive : 0 < s.endrun_recv_timeout_usec
  pub pause_positive : 0 < s.pause_recv_timeout_usec

-- A turn in which nothing arrives.
abbrev pub IsQuiet : {F : Type 0} → Turn F → Type 0
IsQuiet turn = (n : ℕ) → turn.polls n ≡ []

-- A turn in which nothing arrives, after which neither flag is set, or before which neither is, if
-- the timeouts in a run and at its end or pause are different ones.
abbrev pub IsIdle : {P F E : Type 0} → EventBuilderCore P F E → Turn F → Type 0
IsIdle s turn =
    IsQuiet turn
    × (((turn.stop_after ≡ false) × (turn.pause_after ≡ false))
        ⊎ ((turn.stop_before ≡ false)
            × (turn.pause_before ≡ false)
            × (s.inrun_recv_timeout_usec ≢ s.endrun_recv_timeout_usec)
            × (s.inrun_recv_timeout_usec ≢ s.pause_recv_timeout_usec)))

-- A turn in which nothing arrives, and that reads the flag of `stop` before and after its receive,
-- or, if `stop` is not set before it, the flag of `pause`.
abbrev pub IsLast : {F : Type 0} → Turn F → Type 0
IsLast turn =
    IsQuiet turn
    × (((turn.stop_before ≡ true) × (turn.stop_after ≡ true))
        ⊎ ((turn.stop_before ≡ false) × (turn.pause_before ≡ true) × (turn.pause_after ≡ true)))

module _ {P F E : Type 0} (core : ArtdaqCore F E) (s : EventBuilderCore P F E) where
  -- The core after the flush at the end of the loop.
  abbrev pub flushed : (ℕ → Bool) → EventStore E → EventBuilderCore P F E
  flushed flushes st = record s {
    event_store = some (flush_data core flushes st).0;
    flush_mutex = false;
  }

module _ {P F E : Type 0} (core : ArtdaqCore F E) (l : Tallies) (s : EventBuilderCore P F E)
    (w : IsWaiting s) where
  recv_timeout_usec_positive : (turn : Turn F) → 0 < recv_timeout_usec turn s
  unfolding recv_timeout_usec
  recv_timeout_usec_positive turn =
      ground (arith, w.inrun_positive, w.endrun_positive, w.pause_positive)

  turn_of-quiet :
      (turn : Turn F)
      → IsQuiet turn
      → turn_of core turn l s ≡ (on_timeout core turn s >>= λ u. ok (l, u))
  unfolding turn_of
  turn_of-quiet turn quiet = ground (
    arith,
    w.receiver_is,
    recv_fragment-quiet core turn.cancels turn.polls turn.waited (recv_timeout_usec turn s)
        w.receiver w.none_ready w.active (recv_timeout_usec_positive turn) quiet,
  )

  on_timeout-idle : (turn : Turn F) → IsIdle s turn → on_timeout core turn s ≡ ok (s, true)
  unfolding on_timeout timeout_ends recv_timeout_usec
  on_timeout-idle turn (quiet, inl (no_stop, no_pause)) = ground (arith, no_stop, no_pause)
  on_timeout-idle turn (quiet, inr (no_stop, no_pause, at_end, at_pause)) =
      ground (arith, no_stop, no_pause, at_end, at_pause)

  finish_lem :
      (flushes : ℕ → Bool) (st : EventStore E)
      → s.event_store ≡ some st
      → s.flush_mutex ≡ true
      → finish core flushes s ≡ ok (flushed core s flushes st, false)
  unfolding finish on_store unlock
  finish_lem flushes st has held = ground (arith, has, held)

  on_timeout-last :
      (turn : Turn F) (st : EventStore E)
      → IsLast turn
      → s.event_store ≡ some st
      → s.flush_mutex ≡ true
      → on_timeout core turn s ≡ ok (flushed core s turn.flushes st, false)
  unfolding on_timeout timeout_ends recv_timeout_usec
  on_timeout-last turn st (quiet, inl (before, after)) has held =
      ground (arith, before, after, finish_lem turn.flushes st has held)
  on_timeout-last turn st (quiet, inr (no_stop, before, after)) has held =
      ground (arith, no_stop, before, after, finish_lem turn.flushes st has held)

  -- Nothing arrives. The loop goes on through the turns that find neither flag after their receive,
  -- and, if the timeout in a run is neither of the other two, through those that find neither before
  -- it. It ends with a turn that follows them if that one reads the flag of `stop` before and after
  -- its receive, or that of `pause` without `stop` before: then the event store has been flushed, the
  -- mutex is unlocked and nothing else has changed, whatever turns would follow.
  pub process_loop-stop :
      (idle : List (Turn F)) (turn : Turn F) (more : List (Turn F)) (st : EventStore E)
      → All (IsIdle s) idle
      → IsLast turn
      → s.event_store ≡ some st
      → s.flush_mutex ≡ true
      → process_loop core (idle ++ turn ∷ more) l s ≡ ok (l, flushed core s turn.flushes st)
  unfolding process_loop
  process_loop-stop [] turn more st _ ends has held =
      rw (turn_of-quiet turn ends.0, on_timeout-last turn st ends has held) refl
  process_loop-stop (first ∷ idle) turn more st (one, others) ends has held =
      rw (turn_of-quiet first one.0, on_timeout-idle first one)
        (process_loop-stop idle turn more st others ends has held)
