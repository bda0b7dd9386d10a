-- ===== src/BoardReader/App.antt =====
-- artdaq/Application/MPI2/BoardReaderApp.hh and BoardReaderApp.cc: the application, which fills in the
-- virtual functions of Commandable with calls of the core.
use Prim.Native.String.{String, ◌++◌}
use fnal_artdaq.Base.{
  ℕ, Bool, true, false, not, Option, none, some, Outcome, ok, null_pointer, out_of_fuel, or_fault,
  require, ◌>>=◌, ◌>>◌, if◌then◌else◌,
}
use fnal_artdaq.ArtdaqCore.{ArtdaqCore}
use fnal_artdaq.Parameters.{ParameterSets}
use fnal_artdaq.Commandable.Machine.{App}
use fnal_artdaq.Commandable.Machine
use text.Mathlib.Text.{◌==◌ as str_eq}
use fnal_artdaq.Commandable.{status}
use fnal_artdaq.Commandable.Machine.{Context}
use fnal_artdaq.Commandable.Guarded.{guarded}
use fnal_artdaq.Generator.{Generator}
use fnal_artdaq.Generator
use fnal_artdaq.BoardReader.{
  BoardReaderCore, start, stop, pause, resume, shutdown, soft_initialize, reinitialize, begin, run,
  end,
}
use fnal_artdaq.BoardReader
use fnal_artdaq.BoardReader.Configure.{initialize}

-- `future` is whether `fragment_processing_future_` is valid.
pub record BoardReaderApp (D F : Type 0) : Type 0 where
  pub name : String
  pub board_reader : Option (BoardReaderCore D F)
  pub future : Bool

-- The constructor.
unfoldable pub new : {D F : Type 0} → String → BoardReaderApp D F
new name = record { name = name; board_reader = none; future = false }

-- A function of the class that does not fault.
abbrev always : {S : Type 0} → (App S → App S) → App (Outcome S) → App (Outcome S)
always f a = (guarded (λ b. ok (true, f b)) a).1

-- What the environment does during one command: how many turns the thread of `process_fragments`
-- has taken before the command reaches the generator, how many it may take from there on, MPI in
-- the thread, and the memory in which a core is made.
pub record Environment (D F : Type 0) : Type 0 where
  pub turns_before : ℕ
  pub turns_after : ℕ
  pub tests : ℕ → Bool
  pub rounds : ℕ
  pub memory : BoardReaderCore D F

module _ {D F : Type 0} where
  -- A call of the core through its pointer, with the report for its failure.
  abbrev pub call :
      String
      → (BoardReaderCore D F → Outcome (BoardReaderCore D F × Bool))
      → App (BoardReaderApp D F)
      → Outcome (Bool × App (BoardReaderApp D F))
  call problem f a = do
    reader ← or_fault a.members.board_reader null_pointer
    (b, good) ← f reader
    ok (
      good,
      record a {
        report_string = if good then "" else problem;
        external_request_status = good;
        members = record (a.members) { board_reader = some b };
      },
    )

  -- An assignment of `fragment_processing_future_`, or `get`.
  abbrev pub set_future : Bool → Bool × App (BoardReaderApp D F) → Bool × App (BoardReaderApp D F)
  set_future valid (good, a) = (good, record a { members = record (a.members) { future = valid } })

module _ {D F E : Type 0} (core : ArtdaqCore F E) (v : Generator.Virtuals D F) where
  -- A command while the thread runs: turns of its loop, the command, the other turns, until the
  -- thread returns, which `get` waits for. Without a thread there is the command alone.
  unfoldable pub interleaved :
      Environment D F
      → Bool
      → (BoardReaderCore D F → Outcome (BoardReaderCore D F × Bool))
      → BoardReaderCore D F
      → Outcome (BoardReaderCore D F × Bool)
  unfolding begin run end
  interleaved env false command b = command b
  interleaved env true command b = do
    (active, t) ← run core env.tests env.rounds v env.turns_before true (begin b)
    (u, good) ← command t
    (active', w) ← run core env.tests env.rounds v env.turns_after active u
    require (not active') out_of_fuel
    (x, messages) ← end core env.tests env.rounds w
    ok (x, good)

  unfoldable pub do_start :
      ℕ
      → ℕ
      → ℕ
      → (ℕ → String)
      → App (BoardReaderApp D F)
      → Outcome (Bool × App (BoardReaderApp D F))
  unfolding start
  do_start id timeout timestamp digits a = do
    r ←
        call
          ("Error starting "
            ++ a.members.name
            ++ " for run number "
            ++ digits id
            ++ ", timeout "
            ++ digits timeout
            ++ ", timestamp "
            ++ digits timestamp
            ++ ".")
          (start v id timeout timestamp) a
    ok (set_future true r)

  unfoldable pub do_stop :
      Environment D F → ℕ → ℕ → App (BoardReaderApp D F) → Outcome (Bool × App (BoardReaderApp D F))
  unfolding interleaved stop
  do_stop env timeout timestamp a = do
    r ←
        call ("Error stopping " ++ a.members.name ++ ".")
          (interleaved env a.members.future (stop v timeout timestamp)) a
    ok (set_future false r)

  unfoldable pub do_pause :
      Environment D F → ℕ → ℕ → App (BoardReaderApp D F) → Outcome (Bool × App (BoardReaderApp D F))
  unfolding interleaved pause
  do_pause env timeout timestamp a = do
    r ←
        call ("Error pausing " ++ a.members.name ++ ".")
          (interleaved env a.members.future (pause v timeout timestamp)) a
    ok (set_future false r)

  unfoldable pub do_resume :
      ℕ → ℕ → App (BoardReaderApp D F) → Outcome (Bool × App (BoardReaderApp D F))
  unfolding resume
  do_resume timeout timestamp a = do
    r ← call ("Error resuming " ++ a.members.name ++ ".") (resume v timeout timestamp) a
    ok (set_future true r)

module _ {D F : Type 0} where
  unfoldable pub do_shutdown : App (BoardReaderApp D F) → Outcome (Bool × App (BoardReaderApp D F))
  unfolding shutdown
  do_shutdown a = call ("Error shutting down " ++ a.members.name ++ ".") shutdown a

  -- `fragment_receiver_ptr_.reset(nullptr)`
  unfoldable pub booted_enter : App (BoardReaderApp D F) → App (BoardReaderApp D F)
  booted_enter a = record a { members = record (a.members) { board_reader = none } }

module _ {P : Type 0} (sets : ParameterSets P) where
  abbrev with_pset : P → String
  with_pset pset = " with ParameterSet = \"" ++ sets.to_string pset ++ "\"."

module _ {P D F : Type 0} (sets : ParameterSets P) where
  -- A core that exists already is destroyed first.
  unfoldable pub do_initialize :
      (String → P → Option (Generator D))
      → BoardReaderCore D F
      → P
      → App (BoardReaderApp D F)
      → Outcome (Bool × App (BoardReaderApp D F))
  unfolding initialize BoardReader.new
  do_initialize make memory pset a =
      call ("Error initializing " ++ a.members.name ++ with_pset sets pset)
        (initialize sets make pset)
        (record a { members = record (a.members) { board_reader = some (BoardReader.new memory) } })

  unfoldable pub do_soft_initialize :
      P → App (BoardReaderApp D F) → Outcome (Bool × App (BoardReaderApp D F))
  unfolding soft_initialize
  do_soft_initialize pset a =
      call ("Error soft-initializing " ++ a.members.name ++ with_pset sets pset)
        (soft_initialize pset) a

  -- The report string is not cleared first.
  unfoldable pub do_reinitialize :
      P → App (BoardReaderApp D F) → Outcome (Bool × App (BoardReaderApp D F))
  unfolding reinitialize
  do_reinitialize pset a =
      call ("Error reinitializing " ++ a.members.name ++ with_pset sets pset) (reinitialize pset) a
      >>= λ r.
          ok (
            r.0,
            record (r.1) { report_string = if r.0 then a.report_string else r.1.report_string },
          )

module _ {P D F E : Type 0} (core : ArtdaqCore F E) (v : Generator.Virtuals D F)
    (sets : ParameterSets P) (make : String → P → Option (Generator D)) (digits : ℕ → String) where
  -- The virtual functions of the class; `digits` is `boost::lexical_cast<std::string>`.
  unfoldable pub virtuals : Environment D F → Machine.Virtuals P (Outcome (BoardReaderApp D F))
  unfolding guarded do_initialize do_start do_stop do_pause do_resume do_shutdown do_soft_initialize
      do_reinitialize booted_enter
  virtuals env = record {
    do_initialize = λ pset t ts. guarded (do_initialize sets make env.memory pset);
    do_start = λ run t ts. guarded (do_start core v run t ts digits);
    do_stop = λ t ts. guarded (do_stop core v env t ts);
    do_pause = λ t ts. guarded (do_pause core v env t ts);
    do_resume = λ t ts. guarded (do_resume core v t ts);
    do_shutdown = λ t. guarded do_shutdown;
    do_reinitialize = λ pset t ts. guarded (do_reinitialize sets pset);
    do_soft_initialize = λ pset t ts. guarded (do_soft_initialize sets pset);
    booted_enter = λ a. always booted_enter a;
    in_run_exit = λ a. a;
  }

-- `report`, of the application and of its core; `report_cmd` is the generator's `ReportCmd`.
unfoldable pub report :
    {D F : Type 0} → (Generator D → String) → Context (BoardReaderApp D F) → Outcome String
unfolding status
report report_cmd x =
    if str_eq x.app.report_string ""
    then (elim x.app.members.board_reader [
      | none ↦ ok ("Current state = " ++ status x ++ "\n")
      | some b ↦ or_fault b.generator null_pointer >>= λ g.
          ok ("Current state = " ++ status x ++ "\n" ++ report_cmd g)
    ])
    else ok x.app.report_string
