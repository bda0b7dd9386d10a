-- ===== src/Aggregator/Guards.antt =====
-- What the guards of artdaq/Application/MPI2/AggregatorApp.cc make of the application, by the state
-- that the machine of Commandable is in.
use Prim.Native.String.{String, ◌++◌}
use fnal_artdaq.Base.{
  ℕ, ◌≡◌, refl, Bool, true, false, some, Outcome, null_pointer, or_fault, Ends, ended, Ends-bind,
  Ends-any, Ends-if_eq, Ends-or_fault,
}
use fnal_artdaq.ArtdaqCore.{ArtdaqCore}
use fnal_artdaq.Parameters.{ParameterSets, Lookup}
use fnal_artdaq.Commandable.Machine.{State, running, paused, App}
use fnal_artdaq.Aggregator.{AggregatorCore, on_store, start, stop, pause, resume, shutdown}
use fnal_artdaq.Aggregator.Clients.{Boost}
use fnal_artdaq.Aggregator.Configure.{initialize}
use fnal_artdaq.Aggregator.Loop.{process_fragments}
use fnal_artdaq.EventStore.{start_run, start_subrun}
use fnal_artdaq.Aggregator.App.{
  AggregatorApp, Environment, call, problem_of, with_core, join, do_initialize, do_start, do_stop,
  do_pause, do_resume, do_shutdown,
}

module _ {P F E : Type 0} where
  abbrev pub HasCore : AggregatorApp P F E → Type 0
  HasCore m = (b : AggregatorCore P F E) × (m.aggregator ≡ some b)

  -- What holds of the application in a state: the thread of the loop exists exactly in the state
  -- Running, and there is a core in a run.
  abbrev pub IsSound : State → AggregatorApp P F E → Type 0
  IsSound running m = (m.future ≡ true) × HasCore m
  IsSound paused m = (m.future ≡ false) × HasCore m
  IsSound _ m = m.future ≡ false

  -- A guard that answers `true`, with a thread or not.
  abbrev pub Threads : Bool → Bool × App (AggregatorApp P F E) → Type 0
  Threads future (good, a) = (good ≡ true) × (a.members.future ≡ future) × HasCore a.members

  -- A guard that answers anything.
  abbrev pub Idles : Bool × App (AggregatorApp P F E) → Type 0
  Idles (good, a) = a.members.future ≡ false

  abbrev AnswersTrue : AggregatorCore P F E × Bool → Type 0
  AnswersTrue (b, good) = good ≡ true

  call-Threads :
      (problem : String) (f : AggregatorCore P F E → Outcome (AggregatorCore P F E × Bool))
      (a : App (AggregatorApp P F E))
      → ((b : AggregatorCore P F E) → Ends AnswersTrue (f b))
      → Ends (Threads a.members.future) (call problem f a)
  call-Threads problem f a answers =
      Ends-or_fault a.members.aggregator null_pointer
        λ b e. Ends-bind (answers b) λ (b', good) q. ended (q, refl, (b', refl))

  call-Idles :
      (problem : String) (f : AggregatorCore P F E → Outcome (AggregatorCore P F E × Bool))
      (a : App (AggregatorApp P F E))
      → a.members.future ≡ false
      → Ends Idles (call problem f a)
  call-Idles problem f a idle =
      Ends-or_fault a.members.aggregator null_pointer λ b e. Ends-any (f b) λ (b', good). ended idle

  start-AnswersTrue : (now run : ℕ) (s : AggregatorCore P F E) → Ends AnswersTrue (start now run s)
  unfolding start
  start-AnswersTrue now run s = Ends-any (on_store (start_run run) _) λ t. ended refl

  resume-AnswersTrue : (now : ℕ) (s : AggregatorCore P F E) → Ends AnswersTrue (resume now s)
  unfolding resume
  resume-AnswersTrue now s = Ends-any (on_store start_subrun _) λ t. ended refl

  stop-AnswersTrue : (s : AggregatorCore P F E) → Ends AnswersTrue (stop s)
  unfolding stop
  stop-AnswersTrue s = ended refl

  pause-AnswersTrue : (s : AggregatorCore P F E) → Ends AnswersTrue (pause s)
  unfolding pause
  pause-AnswersTrue s = ended refl

  pub do_start-Threads :
      (now run : ℕ) (digits : String) (a : App (AggregatorApp P F E))
      → Ends (Threads true) (do_start now run digits a)
  unfolding do_start
  do_start-Threads now run digits a =
      Ends-bind (call-Threads _ (start now run) a (start-AnswersTrue now run))
        λ r (answer, same, core_is). ended (answer, refl, core_is)

  pub do_resume-Threads :
      (now : ℕ) (a : App (AggregatorApp P F E)) → Ends (Threads true) (do_resume now a)
  unfolding do_resume
  do_resume-Threads now a =
      Ends-bind (call-Threads _ (resume now) a (resume-AnswersTrue now))
        λ r (answer, same, core_is). ended (answer, refl, core_is)

module _ {P F E : Type 0} (core : ArtdaqCore F E) (env : Environment P F E) where
  -- After a `get` there is no thread.
  join-Threads :
      (future : Bool) (r : Bool × App (AggregatorApp P F E))
      → Threads future r
      → Ends (Threads false) (join core env r)
  unfolding join
  join-Threads future (good, a) h =
      Ends-if_eq a.members.future
        (λ going. Ends-any (or_fault a.members.aggregator null_pointer) λ s.
          Ends-any (process_fragments core env.attachment env.turns s)
            λ t. ended (h.0, refl, (t, refl)))
        (λ idle. ended (h.0, idle, h.2))

  pub do_stop-Threads : (a : App (AggregatorApp P F E)) → Ends (Threads false) (do_stop core env a)
  unfolding do_stop
  do_stop-Threads a =
      Ends-bind (call-Threads ("Error stopping " ++ a.members.name ++ ".") stop a stop-AnswersTrue)
        λ r h. join-Threads a.members.future r h

  pub do_pause-Threads :
      (a : App (AggregatorApp P F E)) → Ends (Threads false) (do_pause core env a)
  unfolding do_pause
  do_pause-Threads a =
      Ends-bind (call-Threads ("Error pausing " ++ a.members.name ++ ".") pause a pause-AnswersTrue)
        λ r h. join-Threads a.members.future r h

  pub do_shutdown-Idles :
      (a : App (AggregatorApp P F E))
      → a.members.future ≡ false
      → Ends Idles (do_shutdown core env a)
  unfolding do_shutdown
  do_shutdown-Idles a idle =
      call-Idles ("Error shutting down " ++ a.members.name ++ ".")
        (shutdown core env.data_answers env.reader_result) a idle

module _ {P F E : Type 0} (sets : ParameterSets P) (get_megabytes : String → P → Lookup ℕ)
    (boost : Boost) where
  pub do_initialize-Idles :
      (memory : AggregatorCore P F E) (pset : P) (a : App (AggregatorApp P F E))
      → a.members.future ≡ false
      → Ends Idles (do_initialize sets get_megabytes boost memory pset a)
  unfolding do_initialize
  do_initialize-Idles memory pset a idle =
      call-Idles (problem_of a.members.name (sets.to_string pset))
        (initialize sets get_megabytes boost pset) (with_core memory a) idle
