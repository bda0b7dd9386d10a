-- ===== src/Tests/Requests.antt =====
-- Requests to the commander of a program whose parameter sets are numbers.
use Prim.Native.String.{String}
use text.Mathlib.Text.{◌==◌ as str_eq}
use fnal_artdaq.Base.{
  ℕ, ◌+◌, ◌≡◌, refl, ◌⊎◌, List, [], ◌∷◌, true, false, none, some, Outcome, ok, ◌>>=◌, if◌then◌else◌,
}
use fnal_artdaq.Generator.{pos, negsuc}
use fnal_artdaq.Commandable.Machine.{Command, Context}
use fnal_artdaq.Commandable.{new, report, reset_stats, run, legal_commands}
use fnal_artdaq.Commandable.Stack.{IsStacked}
use fnal_artdaq.Commandable.Legal.{listed}
use fnal_artdaq.Commander.{
  Value, int, string, other, got, threw, unknown, runtime_error, cet_exception, Libraries, Method,
  read_order, find_method,
}
use fnal_artdaq.Commander.Server.{
  Request, Event, arrives, served, Server, handle, serve_all, joined, exception_msg,
}
use fnal_artdaq.Commander.Serving.{accepted, serve_all-run}
use fnal_artdaq.Commander.Counting.{answered_to, waiting, serve_all-accounted}
use fnal_artdaq.Commander.Answers.{refused, handle-legal_commands}
use fnal_artdaq.Tests.Commands.{plain, plain-AllSucceed, idle, paused_now}

abbrev sample_libraries : Libraries ℕ
sample_libraries = record {
  to_uint64 = λ n. elim n [ pos k ↦ got k | negsuc k ↦ threw unknown ];
  to_run_number = λ s. if str_eq s "42" then got 42 else threw unknown;
  make_pset = λ s. if str_eq s "" then threw (cet_exception "no parameters\n") else got 7;
  no_int = λ args i. runtime_error "not an int";
  no_string = λ args i. runtime_error "not a string";
}

abbrev asks : Method → List Value → Request
asks m args = record { method = m; args = args }

abbrev start_server : Server (Unit {0})
start_server = record { application = new idle; holder = none; answers = [] }

abbrev crowd : List Event
crowd =
    arrives 1 (asks Method.init (string "daq: {}" ∷ int (pos 5) ∷ []))
    ∷ arrives 2 (asks Method.status [])
    ∷ served
    ∷ arrives 2 (asks Method.start (string "forty-two" ∷ []))
    ∷ served
    ∷ arrives 3 (asks Method.start (string "42" ∷ other ∷ []))
    ∷ served
    ∷ arrives 1 (asks Method.legal_commands [])
    ∷ []

abbrev seen : Outcome (Server (Unit {0})) → Outcome (List (ℕ × String))
seen r = r >>= λ s. ok s.answers

after_crowd :
    seen (serve_all sample_libraries plain report crowd start_server)
    ≡ ok (
        (3, "Success")
        ∷ (2, "Exception when trying to start the run: Unknown exception")
        ∷ (1, "Success")
        ∷ (2, "busy")
        ∷ [])
unfolding serve_all reset_stats report exception_msg new fnal_artdaq.Commandable.base
after_crowd = refl

joined_ready : joined ("start" ∷ "shutdown" ∷ []) ≡ "start shutdown  reset"
unfolding joined
joined_ready = refl

trims :
    exception_msg "no parameters\n" "start the run"
    ≡ "Exception when trying to start the run: no parameters"
unfolding exception_msg
trims = refl

found : find_method "daq.reset" ≡ some Method.reset
unfolding find_method
found = refl

serve_all-run_example :
    (t : Server (Unit {0})) × (serve_all sample_libraries plain report crowd start_server ≡ ok t)
    × (run plain (accepted sample_libraries plain report crowd none) (new idle) ≡ ok t.application)
    × IsStacked t.application
serve_all-run_example =
    serve_all-run sample_libraries plain report crowd start_server (unfold new in refl)

abbrev busy_now : Server (Unit {0})
busy_now = record {
  application = new idle;
  holder = some (4, asks Method.status []);
  answers = (1, "busy") ∷ [];
}

serve_all-accounted_example : answered_to 1 busy_now.answers + waiting 1 busy_now.holder ≡ 1
serve_all-accounted_example =
    serve_all-accounted sample_libraries plain report 1
      (arrives 4 (asks Method.status []) ∷ arrives 1 (asks Method.stop []) ∷ []) start_server
      busy_now (unfold serve_all in refl)

abbrev resume_request : Request
resume_request = asks Method.resume (other ∷ int (pos 9) ∷ [])

handle-legal_commands_example :
    ((listed "resume" (legal_commands paused_now) ≡ true)
      × ((y : Context (Unit {0})) × (handle sample_libraries plain report resume_request paused_now
            ≡ ok (y, "Success"))))
    ⊎ ((listed "resume" (legal_commands paused_now) ≡ false)
        × (handle sample_libraries plain report resume_request paused_now
            ≡ ok (
              refused sample_libraries plain report "resume" paused_now,
              report (refused sample_libraries plain report "resume" paused_now) "all",
            )))
handle-legal_commands_example =
    handle-legal_commands sample_libraries plain report plain-AllSucceed resume_request
      (Command.resume 45 9) paused_now refl (λ e. cc) (unfold read_order in refl)
