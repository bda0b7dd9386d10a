-- ===== src/Tests/Commands.antt =====
use fnal_artdaq.Base.{ℕ, ◌≡◌, refl, List, [], ◌∷◌, true, false, ok}
use fnal_artdaq.Commandable.Machine.{
  Command, init, start, stop, pause, resume, shutdown, State, booted, initialized, in_run, paused,
  App, Virtuals, Context, bad_transition, func,
}
use fnal_artdaq.Commandable.{base, new, run, execute, legal_commands, clear_status, status}
use fnal_artdaq.Commandable.Stack.{next, execute-next, run_next, run-run_next, stacked, answered}
use fnal_artdaq.Commandable.Legal.{
  AllSucceed, listed, status_of, execute-legal_commands, execute-unlisted, in_run-legal_commands,
  run-stop-shutdown,
}

-- The base class, with numbers for parameter sets.
abbrev pub plain : Virtuals ℕ (Unit {0})
plain = base

pub plain-AllSucceed : AllSucceed plain
unfolding base
plain-AllSucceed = record {
  initializes = λ ps t ts a. (refl, refl);
  starts = λ id t ts a. (refl, refl);
  stops = λ t ts a. (refl, refl);
  pauses = λ t ts a. (refl, refl);
  resumes = λ t ts a. (refl, refl);
  shuts = λ t a. (refl, refl);
  softly = λ ps t ts a. (refl, refl);
  enters = λ a. refl;
  exits = λ a. refl;
}

abbrev pub idle : App (Unit {0})
idle = record { external_request_status = true; report_string = ""; members = tt }

abbrev at_state : State → List State → Context (Unit {0})
at_state s st = record { state = s; stack = st; app = idle }

abbrev session : List (Command ℕ)
session = init 1 10 20 ∷ start 5 10 20 ∷ pause 10 20 ∷ shutdown 10 ∷ []

run-run_next_example :
    run plain session (new idle) ≡ ok (stacked plain (run_next plain session (booted, idle)))
run-run_next_example = run-run_next plain session idle

abbrev pub paused_now : Context (Unit {0})
paused_now = at_state paused (in_run ∷ initialized ∷ [])

execute-next_example :
    execute plain (stop 1 2) paused_now
    ≡ ok (answered plain (next plain paused (stop 1 2) (clear_status paused_now).app))
execute-next_example = execute-next plain (stop 1 2) paused_now refl

execute-legal_commands_example :
    status_of plain (execute plain (resume 1 2) paused_now)
    ≡ ok (listed "resume" (legal_commands paused_now))
execute-legal_commands_example =
    execute-legal_commands plain plain-AllSucceed (resume 1 2) paused_now refl (λ e. cc)

execute-unlisted_example :
    execute plain (pause 1 2) paused_now
    ≡ ok (
      record paused_now {
        app = bad_transition (func {P = ℕ} (pause 1 2)) (clear_status paused_now).app;
      },
      false,
    )
execute-unlisted_example =
    execute-unlisted plain (pause 1 2) paused_now refl (λ e. cc) (unfold legal_commands in refl)

in_run-legal_commands_example :
    (legal_commands (at_state in_run (initialized ∷ [])) ≡ "init" ∷ "shutdown" ∷ [])
    × (status_of plain (execute plain (shutdown 3) (at_state in_run (initialized ∷ []))) ≡ ok false)
in_run-legal_commands_example =
    in_run-legal_commands plain plain-AllSucceed (shutdown 3) (at_state in_run (initialized ∷ []))
      refl refl

run-stop-shutdown_sample :
    (a : App (Unit {0})) × (run plain (stop 1 2 ∷ shutdown 1 ∷ []) paused_now
      ≡ ok (record { state = booted; stack = []; app = a }))
run-stop-shutdown_sample = run-stop-shutdown plain plain-AllSucceed 1 2 paused_now refl

session_ends :
    run plain session (new idle)
    ≡ ok (record paused_now {
      app = record {
        external_request_status = false;
        report_string = "An invalid transition (shutdown) was requested.";
        members = tt;
      };
    })
unfolding run new execute base
session_ends = refl

paused_status : status paused_now ≡ "Paused"
unfolding status
paused_status = refl
