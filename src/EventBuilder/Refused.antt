-- ===== src/EventBuilder/Refused.antt =====
-- A session of artdaq/Application/MPI2/EventBuilderApp.cc whose first `init` is refused.
use Prim.Native.String.{String}
use fnal_artdaq.Base.{
  ℕ, ◌≡◌, refl, List, [], ◌∷◌, ◌++◌, Bool, true, false, ok, fault, null_pointer, Outcome, ◌>>=◌,
}
use fnal_artdaq.ArtdaqCore.{ArtdaqCore}
use fnal_artdaq.Parameters.{ParameterSets, missing, ◌>>=◌ as bind}
use fnal_artdaq.Commandable.Machine.{State, Context, booted, init, start, ready, dispatch, fire}
use fnal_artdaq.Commandable.{new, clear_status, execute, request}
use fnal_artdaq.EventBuilder
use fnal_artdaq.EventBuilder.{lock, on_store}
use fnal_artdaq.EventBuilder.Configure.{initialize, reading}
use fnal_artdaq.EventBuilder.App.{
  EventBuilderApp, Environment, virtuals, do_initialize, do_start, others,
}
use fnal_artdaq.Commandable.Guarded.{guarded}
use fnal_artdaq.EventBuilder.App
use fnal_artdaq.EventBuilder.Session.{Event, command, thread, session}
use fnal_artdaq.EventBuilder.Returning.{with_thread}

-- The state, and the application or the fault that has ended it.
abbrev pub summary :
    {P F E : Type 0}
    → Context (Outcome (EventBuilderApp P F E))
    → Outcome (State × Outcome (EventBuilderApp P F E))
summary y = ok (y.state, y.app.members)

module _ {P F E : Type 0} (core : ArtdaqCore F E) (sets : ParameterSets P)
    (digits : ℕ → String) where
  -- What each command of a session is answered, and the state that it leads to.
  abbrev pub answers :
      List (Event P F E) → Context (Outcome (EventBuilderApp P F E)) → Outcome (List (Bool × State))
  answers [] x = ok []
  answers (command env c ∷ more) x = execute (virtuals core sets digits env) c x >>= λ r.
      answers more r.0 >>= λ rest. ok ((r.1, r.0.state) ∷ rest)
  answers (thread turns ∷ more) x = answers more (with_thread core turns x)

  -- If the parameters of a first `init` have no part "daq", it is answered `false`, in the state
  -- Booted; any second `init` is then answered `true`, in the state Ready; and a `start` after it
  -- dereferences the null pointer of the event store.
  pub session-init_refused :
      (mpi_rank run t ts : ℕ) (name report : String) (status : Bool) (bad good : P)
      (first second third : Environment P F E)
      → sets.get_pset "daq" bad ≡ missing
      → let x = new (record {
        external_request_status = status;
        report_string = report;
        members = ok (App.new mpi_rank name);
      }) in
        let inits = command first (init bad t ts) ∷ command second (init good t ts) ∷ [] in
        (answers inits x ≡ ok ((false, booted) ∷ (true, ready) ∷ []))
        × ((session core sets digits (inits ++ command third (start run t ts) ∷ []) x >>= summary)
            ≡ ok (ready, fault null_pointer))
  unfolding session execute request clear_status fire dispatch virtuals guarded do_initialize
      do_start others EventBuilder.start lock on_store initialize reading bind new App.new
      EventBuilder.new
  session-init_refused mpi_rank run t ts name report status bad good first second third gone =
      rw gone (refl, refl)
