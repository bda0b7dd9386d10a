-- ===== src/Commander.antt =====
-- artdaq/ExternalComms/xmlrpc_commander.hh and xmlrpc_commander.cc: the methods that an application
-- offers over XML-RPC, and how each request is answered. The server itself and the log messages are
-- left out.
pub mod Server
pub mod Serving
pub mod Counting
pub mod Answers
use Prim.Native.String.{String, ◌++◌}
use text.Mathlib.Text.{◌==◌ as str_eq}
use fnal_artdaq.Base.{ℕ, ◌+◌, List, Option, none, some, if◌then◌else◌, get_elem?}
use fnal_artdaq.Generator.{ℤ}
use fnal_artdaq.Commandable.Machine.{Command}

-- A value in the list of parameters; the code asks for integers and strings only.
pub data Value : Type 0 where
  int : ℤ → Value
  string : String → Value
  other : Value

-- What the handlers of `execute` and of `getParam` tell apart, with the text of `what()`; `unknown`
-- is every other class, such as `boost::bad_lexical_cast`. The class art::Exception derives from
-- cet::exception.
pub data Thrown : Type 0 where
  runtime_error art_exception cet_exception : String → Thrown
  unknown : Thrown

-- The end of a call that may throw.
pub data Attempt (A : Type 0) : Type 0 where
  got : A → Attempt A
  threw : Thrown → Attempt A

-- A call that throws ends what follows it.
unfoldable pub and_then : {A B : Type 0} → Attempt A → (A → Attempt B) → Attempt B
and_then (got a) rest = rest a
and_then (threw why) rest = threw why

-- What the code uses of other packages: `boost::lexical_cast` to `uint64_t` and to a run number,
-- `fhicl::make_ParameterSet`, and the exceptions of `getInt` and `getString`.
pub record Libraries (P : Type 0) : Type 0 where
  pub to_uint64 : ℤ → Attempt ℕ
  pub to_run_number : String → Attempt ℕ
  pub make_pset : String → Attempt P
  pub no_int : List Value → ℕ → Thrown
  pub no_string : List Value → ℕ → Thrown

-- The classes that derive from `cmd_`, `shutdown_` under its two names.
pub data Method : Type 0 where
  init soft_init reinit start status report stop pause resume reset_stats legal_commands shutdown
        reset :
      Method

-- `registry.addMethod`
unfoldable pub find_method : String → Option Method
find_method name =
    if str_eq name "daq.init"
    then some Method.init
    else if str_eq name "daq.soft_init"
    then some Method.soft_init
    else if str_eq name "daq.reinit"
    then some Method.reinit
    else if str_eq name "daq.start"
    then some Method.start
    else if str_eq name "daq.status"
    then some Method.status
    else if str_eq name "daq.report"
    then some Method.report
    else if str_eq name "daq.stop"
    then some Method.stop
    else if str_eq name "daq.pause"
    then some Method.pause
    else if str_eq name "daq.resume"
    then some Method.resume
    else if str_eq name "daq.reset_stats"
    then some Method.reset_stats
    else if str_eq name "daq.legal_commands"
    then some Method.legal_commands
    else if str_eq name "daq.shutdown"
    then some Method.shutdown
    else if str_eq name "daq.reset"
    then some Method.reset
    else none

-- `_help`
unfoldable pub help : Method → String
help Method.init = "initialize the program"
help Method.soft_init = "initialize software components in the program"
help Method.reinit = "re-initialize the program"
help Method.start = "start the run"
help Method.status = "report the current state"
help Method.report = "report statistics"
help Method.stop = "stop the program"
help Method.pause = "pause the program"
help Method.resume = "resume the program"
help Method.reset_stats = "reset statistics"
help Method.legal_commands = "return the currently legal commands"
help Method.shutdown = "shutdown the program"
help Method.reset = "shutdown the program"

-- What a method asks of the application, once its parameters are read.
pub data Order (P : Type 0) : Type 0 where
  command : Command P → Order P
  ask_status ask_legal_commands : Order P
  ask_report ask_reset_stats : String → Order P

-- `std::numeric_limits<const uint64_t>::max()`
abbrev pub default_timestamp : ℕ
default_timestamp = 0xFFFF_FFFF_FFFF_FFFF

abbrev pub default_timeout : ℕ
default_timeout = 45

-- What is left of the result when `getParam` throws, in the version with a default: an exception of
-- cet is copied as `cet::exception` and thrown on, every other exception is swallowed.
unfoldable pub or_default : {A : Type 0} → A → Attempt A → Attempt A
or_default d (got a) = got a
or_default d (threw (cet_exception text)) = threw (cet_exception text)
or_default d (threw (art_exception text)) = threw (cet_exception text)
or_default d (threw (runtime_error text)) = got d
or_default d (threw unknown) = got d

module _ {P : Type 0} (lib : Libraries P) where
  -- `paramList.getInt` and `paramList.getString`
  unfoldable pub get_int : List Value → ℕ → Attempt ℤ
  get_int args i = elim (get_elem? args i) [
    | some (int n) ↦ got n
    | some (string s) ↦ threw (lib.no_int args i)
    | some other ↦ threw (lib.no_int args i)
    | none ↦ threw (lib.no_int args i)
  ]

  unfoldable pub get_string : List Value → ℕ → Attempt String
  get_string args i = elim (get_elem? args i) [
    | some (string s) ↦ got s
    | some (int n) ↦ threw (lib.no_string args i)
    | some other ↦ threw (lib.no_string args i)
    | none ↦ threw (lib.no_string args i)
  ]

  -- `getParam` for `uint64_t`, without and with a default, for `art::RunID` and for a ParameterSet.
  unfoldable pub get_uint64 : List Value → ℕ → Attempt ℕ
  unfolding get_int and_then
  get_uint64 args i = and_then (get_int args i) lib.to_uint64

  unfoldable pub get_or : List Value → ℕ → ℕ → Attempt ℕ
  unfolding get_uint64 or_default
  get_or args i d = or_default d (get_uint64 args i)

  unfoldable pub get_run : List Value → ℕ → Attempt ℕ
  unfolding get_string and_then
  get_run args i = and_then (get_string args i) lib.to_run_number

  unfoldable pub get_pset : List Value → ℕ → Attempt P
  unfolding get_string and_then
  get_pset args i = and_then (get_string args i) lib.make_pset

  -- A command with a timeout and a timestamp, which stand at `i` and `i + 1`.
  unfoldable pub with_times : (ℕ → ℕ → Command P) → List Value → ℕ → Attempt (Order P)
  unfolding get_or and_then
  with_times c args i = and_then (get_or args i default_timeout) λ timeout.
      and_then (get_or args (i + 1) default_timestamp)
        λ timestamp. got (command (c timeout timestamp))

  -- `execute_` of each class, before it calls the application.
  unfoldable pub read_order : Method → List Value → Attempt (Order P)
  unfolding with_times get_or get_run get_pset get_string and_then
  read_order Method.init args = and_then (get_pset args 0) λ ps. with_times (Command.init ps) args 1
  read_order Method.soft_init args =
      and_then (get_pset args 0) λ ps. with_times (Command.soft_init ps) args 1
  read_order Method.reinit args =
      and_then (get_pset args 0) λ ps. with_times (Command.reinit ps) args 1
  read_order Method.start args =
      and_then (get_run args 0) λ id. with_times (Command.start id) args 1
  read_order Method.pause args = with_times Command.pause args 0
  read_order Method.resume args = with_times Command.resume args 0
  read_order Method.stop args = with_times Command.stop args 0
  read_order Method.shutdown args =
      and_then (get_or args 0 default_timeout) λ timeout. got (command (Command.shutdown timeout))
  read_order Method.reset args =
      and_then (get_or args 0 default_timeout) λ timeout. got (command (Command.shutdown timeout))
  read_order Method.status args = got ask_status
  read_order Method.report args = and_then (get_string args 0) λ which. got (ask_report which)
  read_order Method.reset_stats args =
      and_then (get_string args 0) λ which. got (ask_reset_stats which)
  read_order Method.legal_commands args = got ask_legal_commands
