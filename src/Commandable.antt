-- ===== src/Commandable.antt =====
-- artdaq/Application/Commandable.hh and Commandable.cc: the base class of the applications, which
-- runs each external command through the state machine. Log messages are left out.
pub mod Machine
pub mod Guarded
pub mod Sound
pub mod Stack
pub mod Legal
use Prim.Native.Char.{Char}
use Prim.Native.String.{String}
use text.Mathlib.Text.{◌==◌ as str_eq, starts_with}
use fnal_artdaq.Base.{
  ℕ, ◌≡◌, refl, List, [], ◌∷◌, Bool, true, false, Option, none, some, Outcome, ok, fault, ◌>>=◌,
  if◌then◌else◌,
}
use Machine.{
  State, booted, initialized, ready, in_run, running, paused, Command, init, soft_init, reinit,
  start, stop, pause, resume, shutdown, App, Virtuals, Context, fire,
}

-- `getState().getName()` in the code that SMC generates.
unfoldable pub state_name : State → String
state_name booted = "Main::Booted"
state_name initialized = "Main::Initialized"
state_name ready = "InitializedMap::Ready"
state_name in_run = "InitializedMap::InRun"
state_name running = "InRunMap::Running"
state_name paused = "InRunMap::Paused"

abbrev tail_of : String → String
tail_of String.[] = ""
tail_of (String.◌∷◌ c s) = s

-- `rfind("::")` and `substr(pos + 2)`: what follows the last "::", if there is one.
unfoldable pub after_last_colons : String → Option String
after_last_colons String.[] = none
after_last_colons (String.◌∷◌ c s) = elim (after_last_colons s) [
  | some t ↦ some t
  | none ↦ if starts_with (String.◌∷◌ c s) "::" then some (tail_of s) else none
]

-- The part of `status()` behind the call of `getName()`.
unfoldable pub short_name : String → String
unfolding after_last_colons
short_name full = elim (after_last_colons full) [ some t ↦ t | none ↦ full ]

-- The comparisons of `legal_commands`.
unfoldable pub legal_names : String → List String
legal_names current =
    if str_eq current "Ready"
    then "init" ∷ "soft_init" ∷ "start" ∷ "shutdown" ∷ []
    else if str_eq current "Running"
    then "pause" ∷ "stop" ∷ []
    else if str_eq current "Paused"
    then "resume" ∷ "stop" ∷ []
    else "init" ∷ "shutdown" ∷ []

unfoldable pub reset_stats : String → Bool
reset_stats which = if str_eq which "fail" then false else true

module _ {S : Type 0} where
  unfoldable pub status : Context S → String
  unfolding short_name state_name
  status x = short_name (state_name x.state)

  unfoldable pub legal_commands : Context S → List String
  unfolding legal_names status
  legal_commands x = legal_names (status x)

  unfoldable pub report : Context S → String → String
  report x which = x.app.report_string

  -- What each command does before it fires its transition.
  unfoldable pub clear_status : Context S → Context S
  clear_status x = record x {
    app = record (x.app) { external_request_status = true; report_string = "All is OK." };
  }

  -- The constructor: SMC starts the context in Main::Booted with an empty stack.
  unfoldable pub new : App S → Context S
  new a = record { state = booted; stack = []; app = a }

abbrev all_is_well : {S : Type 0} → App S → Bool × App S
all_is_well a = (true, record a { external_request_status = true })

-- The virtual functions as the base class has them: each sets the status and returns it.
module _ {P S : Type 0} where
  unfoldable pub base : Virtuals P S
  base = record {
    do_initialize = λ ps t ts. all_is_well;
    do_start = λ id t ts. all_is_well;
    do_stop = λ t ts. all_is_well;
    do_pause = λ t ts. all_is_well;
    do_resume = λ t ts. all_is_well;
    do_shutdown = λ t. all_is_well;
    do_reinitialize = λ ps t ts. all_is_well;
    do_soft_initialize = λ ps t ts. all_is_well;
    booted_enter = λ a. a;
    in_run_exit = λ a. a;
  }

module _ {P S : Type 0} (v : Virtuals P S) where
  abbrev Answer : Type 0
  Answer = Outcome (Context S × Bool)

  -- The common body of the eight commands.
  unfoldable pub request : Command P → Context S → Answer
  unfolding clear_status fire
  request c x = do y ← fire v c (clear_status x); ok (y, y.app.external_request_status)

  unfoldable pub initialize : P → ℕ → ℕ → Context S → Answer
  unfolding request
  initialize ps timeout timestamp = request (init ps timeout timestamp)

  unfoldable pub start_command : ℕ → ℕ → ℕ → Context S → Answer
  unfolding request
  start_command id timeout timestamp = request (start id timeout timestamp)

  unfoldable pub stop_run : ℕ → ℕ → Context S → Answer
  unfolding request
  stop_run timeout timestamp = request (stop timeout timestamp)

  unfoldable pub pause_run : ℕ → ℕ → Context S → Answer
  unfolding request
  pause_run timeout timestamp = request (pause timeout timestamp)

  unfoldable pub resume_run : ℕ → ℕ → Context S → Answer
  unfolding request
  resume_run timeout timestamp = request (resume timeout timestamp)

  unfoldable pub shut_down : ℕ → Context S → Answer
  unfolding request
  shut_down timeout = request (shutdown timeout)

  unfoldable pub soft_initialize : P → ℕ → ℕ → Context S → Answer
  unfolding request
  soft_initialize ps timeout timestamp = request (soft_init ps timeout timestamp)

  unfoldable pub reinitialize : P → ℕ → ℕ → Context S → Answer
  unfolding request
  reinitialize ps timeout timestamp = request (reinit ps timeout timestamp)

  -- A command from outside calls the method of its name.
  unfoldable pub execute : Command P → Context S → Answer
  unfolding initialize start_command stop_run pause_run resume_run shut_down soft_initialize
      reinitialize
  execute (init ps t ts) = initialize ps t ts
  execute (soft_init ps t ts) = soft_initialize ps t ts
  execute (reinit ps t ts) = reinitialize ps t ts
  execute (start id t ts) = start_command id t ts
  execute (stop t ts) = stop_run t ts
  execute (pause t ts) = pause_run t ts
  execute (resume t ts) = resume_run t ts
  execute (shutdown t) = shut_down t

  -- Commands one after another.
  unfoldable pub run : List (Command P) → Context S → Outcome (Context S)
  unfolding execute
  run [] x = ok x
  run (c ∷ cs) x = execute c x >>= λ r. run cs r.0
