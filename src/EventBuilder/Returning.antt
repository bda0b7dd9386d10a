-- ===== src/EventBuilder/Returning.antt =====
-- The thread of `process_fragments` of artdaq/Application/MPI2/EventBuilderApp.cc, which may return
-- before a command waits for it.
use fnal_artdaq.Base.{
  ◌≡◌, refl, List, true, false, Outcome, ok, fault, ◌>>=◌, Ends, ended, Ends-both, Ends-bind, inl,
  inr,
}
use fnal_artdaq.ArtdaqCore.{ArtdaqCore}
use fnal_artdaq.Commandable.Machine.{
  State, booted, initialized, ready, in_run, running, paused, Context,
}
use fnal_artdaq.EventBuilder.App.{EventBuilderApp, run_thread, invalid, pending, returned}
use fnal_artdaq.Commandable.Sound
use fnal_artdaq.Commandable.Sound.{
  branch, Goes, guarded-IsSafe, reported-IsSafe, ready-IsSafe, members-IsSound,
}
use fnal_artdaq.EventBuilder.Process.{Turn}
use fnal_artdaq.EventBuilder.Framing.{process_fragments-keeps}
use fnal_artdaq.EventBuilder.Standing.{Suspended}
use fnal_artdaq.EventBuilder.Unlocking.{process_fragments-IsFree}
use fnal_artdaq.EventBuilder.Guards.{HasCore, Waits-IsStable, IsSound}

module _ {P F E : Type 0} (core : ArtdaqCore F E) where
  -- What comes of the application when the other thread goes on.
  unfoldable pub with_thread :
      List (Turn F)
      → Context (Outcome (EventBuilderApp P F E))
      → Context (Outcome (EventBuilderApp P F E))
  unfolding run_thread
  with_thread turns x = record x {
    app = record (x.app) { members = x.app.members >>= run_thread core turns };
  }

  run_thread-idle :
      (turns : List (Turn F)) (m : EventBuilderApp P F E)
      → m.future ≡ invalid
      → run_thread core turns m ≡ ok m
  unfolding run_thread
  run_thread-idle turns m idle = rw idle refl

  run_thread-returned :
      (turns : List (Turn F)) (m : EventBuilderApp P F E)
      → m.future ≡ returned
      → run_thread core turns m ≡ ok m
  unfolding run_thread
  run_thread-returned turns m over = rw over refl

  -- The thread returns with the mutex unlocked.
  run_thread-Frees :
      (turns : List (Turn F)) (m : EventBuilderApp P F E)
      → m.future ≡ pending
      → HasCore true false m
      → Ends (IsSound running) (run_thread core turns m)
  unfolding run_thread
  run_thread-Frees turns m runs (b, has, (held, unpaused)) =
      rw (runs, has)
        (Ends-bind
          (Ends-both (process_fragments-IsFree core turns b held) (
            process_fragments-keeps (Suspended false) (Waits-IsStable false) core turns b unpaused))
          λ c (free, h). ended (inr (refl, (c, refl, (free, h)))))

  Stays :
      (turns : List (Turn F)) (s : State) (m : EventBuilderApp P F E)
      → m.future ≡ invalid
      → IsSound s m
      → Ends (IsSound s) (run_thread core turns m)
  Stays turns s m idle h = rw (run_thread-idle turns m idle) (ended h)

  run_thread-IsSound :
      (turns : List (Turn F)) (s : State) (m : EventBuilderApp P F E)
      → IsSound s m
      → Ends (IsSound s) (run_thread core turns m)
  run_thread-IsSound turns running m (inl (runs, h)) = run_thread-Frees turns m runs h
  run_thread-IsSound turns running m (inr (over, h)) =
      rw (run_thread-returned turns m over) (ended (inr (over, h)))
  run_thread-IsSound turns paused m h = Stays turns paused m h.0 h
  run_thread-IsSound turns booted m h = Stays turns booted m h.0 h
  run_thread-IsSound turns initialized m h = Stays turns initialized m h.0 h
  run_thread-IsSound turns ready m h = Stays turns ready m h.0 h
  run_thread-IsSound turns in_run m h = Stays turns in_run m h.0 h

  abbrev Within : State → Outcome (EventBuilderApp P F E) → Type 0
  Within s o = elim o [ fault why ↦ Unit | ok m ↦ IsSound s m ]

  pub with_thread-IsSafe :
      (turns : List (Turn F)) (x : Context (Outcome (EventBuilderApp P F E)))
      → Sound.IsSafe IsSound (x.state, x.app)
      → Sound.IsSafe IsSound ((with_thread turns x).state, (with_thread turns x).app)
  unfolding with_thread
  with_thread-IsSafe turns x = by_members x.app.members
    where
      by_end : (o : Outcome (EventBuilderApp P F E)) → Ends (IsSound x.state) o → Within x.state o
      by_end (fault why) h = tt
      by_end (ok m) (ended h) = h

      by_members :
          (o : Outcome (EventBuilderApp P F E))
          → Within x.state o
          → Within x.state (o >>= run_thread core turns)
      by_members (fault why) h = tt
      by_members (ok m) h = by_end (run_thread core turns m) (run_thread-IsSound turns x.state m h)
