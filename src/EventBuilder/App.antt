-- ===== src/EventBuilder/App.antt =====
-- artdaq/Application/MPI2/EventBuilderApp.hh and EventBuilderApp.cc: the application, which fills in
-- the virtual functions of Commandable with calls of the core.
use Prim.Native.String.{String, ◌++◌}
use fnal_artdaq.Base.{
  ℕ, List, Bool, true, Option, none, some, Outcome, ok, null_pointer, or_fault, ◌>>=◌,
  if◌then◌else◌,
}
use fnal_artdaq.ArtdaqCore.{ArtdaqCore}
use fnal_artdaq.Parameters.{ParameterSets}
use text.Mathlib.Text.{◌==◌ as str_eq}
use fnal_artdaq.Commandable.{status}
use fnal_artdaq.Commandable.Machine.{Context}
use fnal_artdaq.Commandable.Guarded.{guarded}
use fnal_artdaq.Commandable.Machine.{App, Virtuals}
use fnal_artdaq.EventBuilder.{
  EventBuilderCore, start, stop, pause, resume, shutdown, soft_initialize, reinitialize,
}
use fnal_artdaq.EventBuilder
use fnal_artdaq.EventBuilder.Configure.{initialize}
use fnal_artdaq.EventBuilder.Process.{Turn, process_fragments}

-- What `event_building_future_` is: invalid, if no thread has been started or `get` has been called;
-- valid, with a thread that has not returned from `process_fragments` or with one that has.
pub data Future : Type 0 where
  invalid : Future
  pending : Future
  returned : Future

pub record EventBuilderApp (P F E : Type 0) : Type 0 where
  pub mpi_rank : ℕ
  pub name : String
  pub event_builder : Option (EventBuilderCore P F E)
  pub future : Future

-- The constructor.
unfoldable pub new : {P F E : Type 0} → ℕ → String → EventBuilderApp P F E
new mpi_rank name = record {
  mpi_rank = mpi_rank;
  name = name;
  event_builder = none;
  future = invalid;
}

-- What the environment does during one command: the turns that the thread of `process_fragments`
-- takes until the command has the mutex, the answers of the queue, the value of the reader's
-- thread, and the memory in which a core is made.
pub record Environment (P F E : Type 0) : Type 0 where
  pub turns : List (Turn F)
  pub subrun_answers : ℕ → Bool
  pub run_answers : ℕ → Bool
  pub data_answers : ℕ → Bool
  pub reader_result : ℕ
  pub memory : EventBuilderCore P F E

module _ {P F E : Type 0} where
  -- `report_string_ = ""; external_request_status_ = f(); if (! external_request_status_) …`, for a
  -- call of the core, through its pointer.
  abbrev pub call :
      String
      → (EventBuilderCore P F E → Outcome (EventBuilderCore P F E × Bool))
      → App (EventBuilderApp P F E)
      → Outcome (Bool × App (EventBuilderApp P F E))
  call problem f a = do
    builder ← or_fault a.members.event_builder null_pointer
    (b, good) ← f builder
    ok (
      good,
      record a {
        report_string = if good then "" else problem;
        external_request_status = good;
        members = record (a.members) { event_builder = some b };
      },
    )

  -- An assignment of `event_building_future_`, or `get`.
  abbrev pub set_future :
      Future → Bool × App (EventBuilderApp P F E) → Bool × App (EventBuilderApp P F E)
  set_future future (good, a) =
      (good, record a { members = record (a.members) { future = future } })

module _ {P F E : Type 0} (core : ArtdaqCore F E) where
  -- What the other thread does while a command waits for the mutex.
  unfoldable pub others :
      List (Turn F)
      → EventBuilderApp P F E
      → EventBuilderCore P F E
      → Outcome (EventBuilderCore P F E)
  unfolding process_fragments
  others turns m s = elim m.future [
    | invalid ↦ ok s
    | pending ↦ process_fragments core turns s
    | returned ↦ ok s
  ]

  -- What the other thread does while no command is executed: it returns after these turns.
  unfoldable pub run_thread :
      List (Turn F) → EventBuilderApp P F E → Outcome (EventBuilderApp P F E)
  unfolding process_fragments
  run_thread turns m = elim m.future [
    | invalid ↦ ok m
    | pending ↦ or_fault m.event_builder null_pointer >>= λ builder.
        process_fragments core turns builder >>= λ b.
        ok (record m { event_builder = some b; future = returned })
    | returned ↦ ok m
  ]

  unfoldable pub do_start :
      List (Turn F)
      → ℕ
      → String
      → App (EventBuilderApp P F E)
      → Outcome (Bool × App (EventBuilderApp P F E))
  unfolding start others
  do_start turns run digits a = do
    r ←
        call ("Error starting " ++ a.members.name ++ " for run number " ++ digits ++ ".")
          (start run (others turns a.members)) a
    ok (set_future pending r)

  unfoldable pub do_stop :
      Environment P F E → App (EventBuilderApp P F E) → Outcome (Bool × App (EventBuilderApp P F E))
  unfolding stop others
  do_stop env a = do
    r ←
        call ("Error stopping " ++ a.members.name ++ ".")
          (stop core env.subrun_answers env.run_answers (others env.turns a.members)) a
    ok (set_future invalid r)

  unfoldable pub do_pause :
      Environment P F E → App (EventBuilderApp P F E) → Outcome (Bool × App (EventBuilderApp P F E))
  unfolding pause others
  do_pause env a = do
    r ←
        call ("Error pausing " ++ a.members.name ++ ".")
          (pause core env.subrun_answers (others env.turns a.members)) a
    ok (set_future invalid r)

  unfoldable pub do_resume :
      List (Turn F) → App (EventBuilderApp P F E) → Outcome (Bool × App (EventBuilderApp P F E))
  unfolding resume others
  do_resume turns a = do
    r ← call ("Error resuming " ++ a.members.name ++ ".") (resume (others turns a.members)) a
    ok (set_future pending r)

  unfoldable pub do_shutdown :
      Environment P F E → App (EventBuilderApp P F E) → Outcome (Bool × App (EventBuilderApp P F E))
  unfolding shutdown
  do_shutdown env a =
      call ("Error shutting down " ++ a.members.name ++ ".")
        (shutdown core env.data_answers env.reader_result) a

module _ {P : Type 0} (sets : ParameterSets P) where
  -- `with "ParameterSet = …"`
  abbrev pub with_pset : P → String
  with_pset pset = " with ParameterSet = \"" ++ sets.to_string pset ++ "\"."

module _ {P F E : Type 0} (sets : ParameterSets P) where
  -- A core that exists already is not initialized again.
  unfoldable pub do_initialize :
      EventBuilderCore P F E
      → P
      → App (EventBuilderApp P F E)
      → Outcome (Bool × App (EventBuilderApp P F E))
  unfolding initialize EventBuilder.new
  do_initialize memory pset a = elim a.members.event_builder [
    | some b ↦ ok (true, record a { report_string = ""; external_request_status = true })
    | none ↦
        call
          ("Error initializing an EventBuilderCore named" ++ a.members.name ++ with_pset sets pset)
          (initialize sets pset)
          (record a {
            members = record (a.members) {
              event_builder = some (EventBuilder.new a.members.mpi_rank memory);
            };
          })
  ]

  unfoldable pub do_soft_initialize :
      P → App (EventBuilderApp P F E) → Outcome (Bool × App (EventBuilderApp P F E))
  unfolding soft_initialize
  do_soft_initialize pset a =
      call ("Error soft-initializing " ++ a.members.name ++ with_pset sets pset)
        (soft_initialize pset) a

  unfoldable pub do_reinitialize :
      P → App (EventBuilderApp P F E) → Outcome (Bool × App (EventBuilderApp P F E))
  unfolding reinitialize
  do_reinitialize pset a =
      call ("Error reinitializing " ++ a.members.name ++ with_pset sets pset) (reinitialize pset) a

module _ {P F E : Type 0} (core : ArtdaqCore F E) (sets : ParameterSets P)
    (digits : ℕ → String) where
  -- The virtual functions of the class; `digits` is `boost::lexical_cast<std::string>`.
  unfoldable pub virtuals : Environment P F E → Virtuals P (Outcome (EventBuilderApp P F E))
  unfolding guarded do_initialize do_start do_stop do_pause do_resume do_shutdown do_soft_initialize
      do_reinitialize
  virtuals env = record {
    do_initialize = λ pset t ts. guarded (do_initialize sets env.memory pset);
    do_start = λ run t ts. guarded (do_start core env.turns run (digits run));
    do_stop = λ t ts. guarded (do_stop core env);
    do_pause = λ t ts. guarded (do_pause core env);
    do_resume = λ t ts. guarded (do_resume core env.turns);
    do_shutdown = λ t. guarded (do_shutdown core env);
    do_reinitialize = λ pset t ts. guarded (do_reinitialize sets pset);
    do_soft_initialize = λ pset t ts. guarded (do_soft_initialize sets pset);
    booted_enter = λ a. a;
    in_run_exit = λ a. a;
  }

-- `report`, of the application and of its core.
unfoldable pub report : {P F E : Type 0} → (ℕ → String) → Context (EventBuilderApp P F E) → String
unfolding status
report digits x =
    if str_eq x.app.report_string ""
    then ("Current state = " ++ status x ++ "\n" ++ elim x.app.members.event_builder [
      | none ↦ ""
      | some b ↦ "Event Builder run number = " ++ digits b.run_id
    ])
    else x.app.report_string
