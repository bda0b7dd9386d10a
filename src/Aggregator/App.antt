-- ===== src/Aggregator/App.antt =====
-- artdaq/Application/MPI2/AggregatorApp.hh and AggregatorApp.cc: the application, which fills in the
-- virtual functions of Commandable with calls of the core. Its `report` is left out.
use Prim.Native.String.{String, ◌++◌}
use fnal_artdaq.Base.{
  ℕ, List, Bool, true, false, Option, none, some, Outcome, ok, null_pointer, or_fault, ◌>>=◌,
  if◌then◌else◌,
}
use fnal_artdaq.ArtdaqCore.{ArtdaqCore}
use fnal_artdaq.Parameters.{ParameterSets, Lookup}
use fnal_artdaq.Commandable.Guarded.{guarded}
use fnal_artdaq.Commandable.Machine.{App, Virtuals}
use fnal_artdaq.Aggregator.{AggregatorCore, Attachment, start, stop, pause, resume, shutdown}
use fnal_artdaq.Aggregator
use fnal_artdaq.Aggregator.Clients.{Boost}
use fnal_artdaq.Aggregator.Configure.{initialize}
use fnal_artdaq.Aggregator.Process.{Turn}
use fnal_artdaq.Aggregator.Loop.{process_fragments}

-- `future` is whether `aggregator_future_` is valid: the thread has been started, and `get` has not
-- been called.
pub record AggregatorApp (P F E : Type 0) : Type 0 where
  pub mpi_rank : ℕ
  pub name : String
  pub aggregator : Option (AggregatorCore P F E)
  pub future : Bool

-- The constructor.
unfoldable pub new : {P F E : Type 0} → ℕ → String → AggregatorApp P F E
new mpi_rank name = record { mpi_rank = mpi_rank; name = name; aggregator = none; future = false }

-- What the environment does during one command: the clock; the system that attaches the shared
-- segment, and the turns, of a thread that the command waits for; the queue and the value of the
-- reader's thread; and the memory in which a core is made.
pub record Environment (P F E : Type 0) : Type 0 where
  pub now : ℕ
  pub attachment : Attachment
  pub turns : List (Turn F)
  pub data_answers : ℕ → Bool
  pub reader_result : ℕ
  pub memory : AggregatorCore P F E

module _ {P F E : Type 0} where
  -- `report_string_ = ""; external_request_status_ = f(); if (! external_request_status_) …`, for a
  -- call of the core, through its pointer.
  abbrev pub call :
      String
      → (AggregatorCore P F E → Outcome (AggregatorCore P F E × Bool))
      → App (AggregatorApp P F E)
      → Outcome (Bool × App (AggregatorApp P F E))
  call problem f a = do
    aggregator ← or_fault a.members.aggregator null_pointer
    (b, good) ← f aggregator
    ok (
      good,
      record a {
        report_string = if good then "" else problem;
        external_request_status = good;
        members = record (a.members) { aggregator = some b };
      },
    )

  -- The thread is started: `aggregator_future_ = std::async(…)`.
  abbrev pub launched : Bool × App (AggregatorApp P F E) → Bool × App (AggregatorApp P F E)
  launched (good, a) = (good, record a { members = record (a.members) { future = true } })

  unfoldable pub do_start :
      ℕ → ℕ → String → App (AggregatorApp P F E) → Outcome (Bool × App (AggregatorApp P F E))
  unfolding start
  do_start now run digits a = do
    r ←
        call ("Error starting " ++ a.members.name ++ " for run number " ++ digits ++ ".")
          (start now run) a
    ok (launched r)

  unfoldable pub do_resume :
      ℕ → App (AggregatorApp P F E) → Outcome (Bool × App (AggregatorApp P F E))
  unfolding resume
  do_resume now a = do
    r ← call ("Error resuming " ++ a.members.name ++ ".") (resume now) a
    ok (launched r)

  unfoldable pub do_soft_initialize :
      P → App (AggregatorApp P F E) → Outcome (Bool × App (AggregatorApp P F E))
  do_soft_initialize pset a = ok (true, a)

  unfoldable pub do_reinitialize :
      P → App (AggregatorApp P F E) → Outcome (Bool × App (AggregatorApp P F E))
  do_reinitialize pset a = ok (true, a)

module _ {P F E : Type 0} (core : ArtdaqCore F E) where
  -- `if (aggregator_future_.valid()) { aggregator_future_.get(); }`: what the thread does is done.
  unfoldable pub join :
      Environment P F E
      → Bool × App (AggregatorApp P F E)
      → Outcome (Bool × App (AggregatorApp P F E))
  unfolding process_fragments
  join env (good, a) =
      if a.members.future
      then (do
        s ← or_fault a.members.aggregator null_pointer
        t ← process_fragments core env.attachment env.turns s
        ok (
          good,
          record a { members = record (a.members) { aggregator = some t; future = false } },
        ))
      else ok (good, a)

  unfoldable pub do_stop :
      Environment P F E → App (AggregatorApp P F E) → Outcome (Bool × App (AggregatorApp P F E))
  unfolding stop join
  do_stop env a = do r ← call ("Error stopping " ++ a.members.name ++ ".") stop a; join env r

  unfoldable pub do_pause :
      Environment P F E → App (AggregatorApp P F E) → Outcome (Bool × App (AggregatorApp P F E))
  unfolding pause join
  do_pause env a = do r ← call ("Error pausing " ++ a.members.name ++ ".") pause a; join env r

  unfoldable pub do_shutdown :
      Environment P F E → App (AggregatorApp P F E) → Outcome (Bool × App (AggregatorApp P F E))
  unfolding shutdown
  do_shutdown env a =
      call ("Error shutting down " ++ a.members.name ++ ".")
        (shutdown core env.data_answers env.reader_result) a

abbrev pub problem_of : String → String → String
problem_of name pset = "Error initializing " ++ name ++ " with ParameterSet = \"" ++ pset ++ "\"."

-- `if (aggregator_ptr_.get() == 0) { aggregator_ptr_.reset(…); }`
abbrev pub with_core :
    {P F E : Type 0} → AggregatorCore P F E → App (AggregatorApp P F E) → App (AggregatorApp P F E)
with_core memory a = record a {
  members = record (a.members) {
    aggregator = elim a.members.aggregator [
      | some b ↦ some b
      | none ↦ some (Aggregator.new a.members.mpi_rank memory)
    ];
  };
}

module _ {P F E : Type 0} (sets : ParameterSets P) (get_megabytes : String → P → Lookup ℕ)
    (boost : Boost) where
  -- A core is made unless there is one, and initialized in either case.
  unfoldable pub do_initialize :
      AggregatorCore P F E
      → P
      → App (AggregatorApp P F E)
      → Outcome (Bool × App (AggregatorApp P F E))
  unfolding initialize
  do_initialize memory pset a =
      call (problem_of a.members.name (sets.to_string pset))
        (initialize sets get_megabytes boost pset) (with_core memory a)

module _ {P F E : Type 0} (core : ArtdaqCore F E) (sets : ParameterSets P)
    (get_megabytes : String → P → Lookup ℕ) (boost : Boost) (digits : ℕ → String) where
  -- The virtual functions of the class; `digits` is `boost::lexical_cast<std::string>`.
  unfoldable pub virtuals : Environment P F E → Virtuals P (Outcome (AggregatorApp P F E))
  unfolding guarded do_initialize do_start do_stop do_pause do_resume do_shutdown do_soft_initialize
      do_reinitialize
  virtuals env = record {
    do_initialize = λ pset t ts. guarded (do_initialize sets get_megabytes boost env.memory pset);
    do_start = λ run t ts. guarded (do_start env.now run (digits run));
    do_stop = λ t ts. guarded (do_stop core env);
    do_pause = λ t ts. guarded (do_pause core env);
    do_resume = λ t ts. guarded (do_resume env.now);
    do_shutdown = λ t. guarded (do_shutdown core env);
    do_reinitialize = λ pset t ts. guarded (do_reinitialize pset);
    do_soft_initialize = λ pset t ts. guarded (do_soft_initialize pset);
    booted_enter = λ a. a;
    in_run_exit = λ a. a;
  }
