-- ===== src/Commander/Server.antt =====
-- artdaq/ExternalComms/xmlrpc_commander.cc: `execute`, which answers a request while it holds the
-- lock of the commander, and requests that come from several threads. What `report` answers is the
-- argument `report`, since the applications override it. Exceptions that an application lets out of
-- its own calls are left out: only those of reading the parameters are caught here.
use Prim.Native.String.{String, ◌++◌}
use text.Mathlib.Text.{◌==◌ as str_eq}
use fnal_artdaq.Base.{
  ℕ, List, [], ◌∷◌, Bool, true, false, Option, none, some, Outcome, ok, ◌>>=◌, if◌then◌else◌,
}
use fnal_artdaq.Commandable.Machine.{Virtuals, Context}
use fnal_artdaq.Commandable.{status, legal_commands, reset_stats, execute}
use fnal_artdaq.Commander.{
  Value, Thrown, runtime_error, art_exception, cet_exception, unknown, Attempt, got, threw,
  Libraries, Method, help, Order, command, ask_status, ask_legal_commands, ask_report,
  ask_reset_stats, read_order,
}

-- The result string of `legal_commands_`.
unfoldable pub joined : List String → String
joined [] = ""
joined (c ∷ cs) = c ++ " " ++ (if str_eq c "shutdown" then " reset" else "") ++ joined cs

unfoldable pub drop_newline : String → String
drop_newline String.[] = ""
drop_newline (String.◌∷◌ c s) =
    if str_eq (String.◌∷◌ c s) "\n" then "" else String.◌∷◌ c (drop_newline s)

-- `exception_msg`
unfoldable pub exception_msg : String → String → String
unfolding drop_newline
exception_msg what help_text =
    drop_newline ("Exception when trying to " ++ help_text ++ ": " ++ what)

unfoldable pub text_of : Thrown → String
text_of (runtime_error text) = text
text_of (art_exception text) = text
text_of (cet_exception text) = text
text_of unknown = "Unknown exception"

-- A request: the method it names, and its parameters.
pub record Request : Type 0 where
  pub method : Method
  pub args : List Value

-- The threads of the server: a thread comes with a request, of the number `id`, and tries to take
-- the lock; the thread that has the lock is served, and lets it go.
pub data Event : Type 0 where
  arrives : ℕ → Request → Event
  served : Event

-- The application, who has the lock, and the answers that were given, the last one first.
pub record Server (S : Type 0) : Type 0 where
  pub application : Context S
  pub holder : Option (ℕ × Request)
  pub answers : List (ℕ × String)

module _ {P S : Type 0} (lib : Libraries P) (v : Virtuals P S)
    (report : Context S → String → String) where
  -- The calls of the application: what `execute_` returns, and `*retvalP` if it is set.
  unfoldable pub perform : Order P → Context S → Outcome (Context S × Bool × Option String)
  unfolding execute status legal_commands reset_stats joined
  perform (command c) x = execute v c x >>= λ r. ok (r.0, r.1, none)
  perform ask_status x = ok (x, true, some (status x))
  perform ask_legal_commands x = ok (x, true, some (joined (legal_commands x)))
  perform (ask_report which) x = ok (x, true, some (report x which))
  perform (ask_reset_stats which) x = ok (x, reset_stats which, none)

  -- The answer when no exception came.
  unfoldable pub answer_of : Context S × Bool × Option String → Context S × String
  answer_of (x, true, some text) = (x, text)
  answer_of (x, true, none) = (x, "Success")
  answer_of (x, false, retval) = (x, report x "all")

  unfoldable pub respond : Method → Attempt (Order P) → Context S → Outcome (Context S × String)
  unfolding perform answer_of exception_msg text_of help
  respond m (threw why) x = ok (x, exception_msg (text_of why) (help m))
  respond m (got o) x = perform o x >>= λ r. ok (answer_of r)

  -- `execute` with the lock: what it leaves of the application, and the answer.
  unfoldable pub handle : Request → Context S → Outcome (Context S × String)
  unfolding read_order respond
  handle q x = respond q.method (read_order lib q.method q.args) x

  abbrev release : Server S → ℕ → Context S × String → Server S
  release s id (x, text) = record {
    application = x;
    holder = none;
    answers = (id, text) ∷ s.answers;
  }

  unfoldable pub serve : Event → Server S → Outcome (Server S)
  unfolding handle
  serve (arrives id q) s = elim s.holder [
    | none ↦ ok (record s { holder = some (id, q) })
    | some other ↦ ok (record s { answers = (id, "busy") ∷ s.answers })
  ]
  serve served s = elim s.holder [
    | none ↦ ok s
    | some (id, q) ↦ handle q s.application >>= λ r. ok (release s id r)
  ]

  unfoldable pub serve_all : List Event → Server S → Outcome (Server S)
  unfolding serve
  serve_all [] s = ok s
  serve_all (e ∷ es) s = serve e s >>= serve_all es
