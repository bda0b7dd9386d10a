-- ===== src/EventBuilder/Session.antt =====
-- The event builder under the state machine of Commandable: artdaq/Application/MPI2/EventBuilderApp.cc
-- driven by commands from outside.
use Prim.Native.String.{String}
use fnal_artdaq.Base.{
  ℕ, ◌≡◌, refl, List, [], ◌∷◌, Bool, true, false, Outcome, ok, ◌>>=◌, Ends-map, inl, arith,
}
use fnal_artdaq.ArtdaqCore.{ArtdaqCore}
use fnal_artdaq.Parameters.{ParameterSets}
use fnal_artdaq.Commandable.Machine.{
  Virtuals, State, booted, initialized, ready, in_run, running, paused, Command, init, soft_init,
  start, stop, pause, resume, shutdown, App, Context, bad_transition,
}
use fnal_artdaq.Commandable.{new, clear_status, execute}
use fnal_artdaq.Commandable.Stack.{next, stacked, execute-next, IsStacked}
use fnal_artdaq.EventBuilder.App.{
  do_initialize, do_start, do_stop, do_pause, do_resume, do_shutdown, do_soft_initialize,
  EventBuilderApp, Environment, virtuals, run_thread, invalid, pending, returned,
}
use fnal_artdaq.Commandable.Sound
use fnal_artdaq.Commandable.Sound.{
  branch, Goes, guarded-IsSafe, reported-IsSafe, ready-IsSafe, members-IsSound,
}
use fnal_artdaq.Commandable.Guarded.{guarded, alive}
use mathlib.Core.Bool.{false≢true}
use fnal_artdaq.EventBuilder.App
use fnal_artdaq.EventBuilder.Process.{Turn}
use fnal_artdaq.EventBuilder.Returning.{with_thread, with_thread-IsSafe}
use fnal_artdaq.EventBuilder.Guards.{
  IsSound, Rests, Leads, Remains, do_start-Leads, do_resume-Leads, do_pause-Leads, do_stop-Leads,
  do_shutdown-Remains, do_soft_initialize-Remains, do_initialize-Remains,
}

module _ {P F E : Type 0} where
  -- Unless a call has faulted, the application is as it should be in the state.
  abbrev pub IsSafe : State × App (Outcome (EventBuilderApp P F E)) → Type 0
  IsSafe = Sound.IsSafe IsSound

  Leads-Goes :
      (s t : State) (r : Bool × App (EventBuilderApp P F E)) → Leads s r → Goes IsSound s t r
  Leads-Goes s t (true, a) h = h.1
  Leads-Goes s t (false, a) h = absurd (false≢true h.0)

  -- The states between runs are alike.
  Remains-Goes :
      (s t : State)
      → ((m : EventBuilderApp P F E) → Rests m → IsSound s m)
      → ((m : EventBuilderApp P F E) → Rests m → IsSound t m)
      → (r : Bool × App (EventBuilderApp P F E)) → Remains r
      → Goes IsSound s t r
  Remains-Goes s t there back (true, a) h = there a.members h
  Remains-Goes s t there back (false, a) h = back a.members h

module _ {P F E : Type 0} (core : ArtdaqCore F E) (sets : ParameterSets P) (digits : ℕ → String)
    (env : Environment P F E) where
  abbrev v : Virtuals P (Outcome (EventBuilderApp P F E))
  v = virtuals core sets digits env

  init-IsSafe :
      (s t : State) (pset : P) (a : App (Outcome (EventBuilderApp P F E)))
      → ((m : EventBuilderApp P F E) → Rests m → IsSound s m)
      → ((m : EventBuilderApp P F E) → Rests m → IsSound t m)
      → ((m : EventBuilderApp P F E) → a.members ≡ ok m → Rests m)
      → IsSafe (branch s t (v.do_initialize pset 0 0 a))
  unfolding virtuals
  init-IsSafe s t pset a there back rests =
      guarded-IsSafe IsSound (do_initialize sets env.memory pset) s t a λ m e.
        Ends-map (Remains-Goes s t there back)
          (do_initialize-Remains sets env.memory pset (alive m a) (rests m e))

  shutdown-IsSafe :
      (s t : State) (a : App (Outcome (EventBuilderApp P F E)))
      → ((m : EventBuilderApp P F E) → Rests m → IsSound s m)
      → ((m : EventBuilderApp P F E) → Rests m → IsSound t m)
      → ((m : EventBuilderApp P F E) → a.members ≡ ok m → Rests m)
      → IsSafe (branch s t (v.do_shutdown 0 a))
  unfolding virtuals
  shutdown-IsSafe s t a there back rests =
      guarded-IsSafe IsSound (do_shutdown core env) s t a λ m e.
        Ends-map (Remains-Goes s t there back)
          (do_shutdown-Remains core env (alive m a) (rests m e))

  stop-IsSafe :
      (t : State) (a : App (Outcome (EventBuilderApp P F E)))
      → IsSafe (branch ready t (v.do_stop 0 0 a))
  unfolding virtuals
  stop-IsSafe t a =
      guarded-IsSafe IsSound (do_stop core env) ready t a
        λ m e. Ends-map (Leads-Goes ready t) (do_stop-Leads core env (alive m a))

  next-IsSafe :
      (s : State) (c : Command P) (a : App (Outcome (EventBuilderApp P F E)))
      → IsSafe (s, a)
      → IsSafe (next v s c a)
  unfolding next virtuals bad_transition
  next-IsSafe booted (init pset t ts) a safe =
      init-IsSafe ready booted pset a (λ m r. r) (λ m r. r)
        (λ m e. members-IsSound IsSound booted a safe e)
  next-IsSafe initialized (init pset t ts) a safe =
      init-IsSafe ready booted pset a (λ m r. r) (λ m r. r)
        (λ m e. members-IsSound IsSound initialized a safe e)
  next-IsSafe initialized (shutdown t) a safe =
      reported-IsSafe IsSound "shutdown" booted initialized (guarded (do_shutdown core env) a) (
        shutdown-IsSafe booted initialized a (λ m r. r) (λ m r. r)
          λ m e. members-IsSound IsSound initialized a safe e)
  next-IsSafe ready (init pset t ts) a safe =
      init-IsSafe ready booted pset a (λ m r. r) (λ m r. r)
        (λ m e. members-IsSound IsSound ready a safe e)
  next-IsSafe ready (soft_init pset t ts) a safe =
      ready-IsSafe IsSound (guarded (do_soft_initialize sets pset) a) (
        guarded-IsSafe IsSound (do_soft_initialize sets pset) ready ready a λ m e.
          Ends-map (Remains-Goes ready ready (λ m r. r) (λ m r. r)) (
            do_soft_initialize-Remains sets pset (alive m a)
              (members-IsSound IsSound ready a safe e)))
  next-IsSafe ready (shutdown t) a safe =
      reported-IsSafe IsSound "shutdown" booted initialized (guarded (do_shutdown core env) a) (
        shutdown-IsSafe booted initialized a (λ m r. r) (λ m r. r)
          λ m e. members-IsSound IsSound ready a safe e)
  next-IsSafe ready (start run t ts) a safe =
      guarded-IsSafe IsSound (do_start core env.turns run (digits run)) running ready a λ m e.
        Ends-map (Leads-Goes running ready)
          (do_start-Leads core env.turns run (digits run) (alive m a))
  next-IsSafe in_run (stop t ts) a safe =
      reported-IsSafe IsSound "stop" ready in_run (guarded (do_stop core env) a)
        (stop-IsSafe in_run a)
  next-IsSafe running (stop t ts) a safe =
      reported-IsSafe IsSound "stop" ready in_run (guarded (do_stop core env) a)
        (stop-IsSafe in_run a)
  next-IsSafe paused (stop t ts) a safe =
      reported-IsSafe IsSound "stop" ready in_run (guarded (do_stop core env) a)
        (stop-IsSafe in_run a)
  next-IsSafe running (pause t ts) a safe =
      guarded-IsSafe IsSound (do_pause core env) paused running a
        λ m e. Ends-map (Leads-Goes paused running) (do_pause-Leads core env (alive m a))
  next-IsSafe paused (resume t ts) a safe =
      guarded-IsSafe IsSound (do_resume core env.turns) running paused a λ m e.
        Ends-map (Leads-Goes running paused)
          (do_resume-Leads core env.turns (alive m a) (members-IsSound IsSound paused a safe e))
  next-IsSafe s c a safe = ground (arith, safe)

-- A command from outside, with what the environment does meanwhile; or the other thread returns
-- between two commands, if it has not returned, after these turns.
pub data Event (P F E : Type 0) : Type 0 where
  command : Environment P F E → Command P → Event P F E
  thread : List (Turn F) → Event P F E

module _ {P F E : Type 0} (core : ArtdaqCore F E) (sets : ParameterSets P)
    (digits : ℕ → String) where
  -- Events one after another.
  unfoldable pub session :
      List (Event P F E)
      → Context (Outcome (EventBuilderApp P F E))
      → Outcome (Context (Outcome (EventBuilderApp P F E)))
  unfolding execute virtuals with_thread
  session [] x = ok x
  session (command env c ∷ more) x =
      execute (virtuals core sets digits env) c x >>= λ r. session more r.0
  session (thread turns ∷ more) x = session more (with_thread core turns x)

  session-IsSafe :
      (events : List (Event P F E)) (x : Context (Outcome (EventBuilderApp P F E)))
      → IsStacked x
      → IsSafe (x.state, x.app)
      → (y : Context (Outcome (EventBuilderApp P F E))) × (session events x ≡ ok y)
        × IsStacked y
        × IsSafe (y.state, y.app)
  unfolding session with_thread clear_status
  session-IsSafe [] x is_stacked safe = (x, refl, is_stacked, safe)
  session-IsSafe (thread turns ∷ more) x is_stacked safe =
      session-IsSafe more (with_thread core turns x) is_stacked
        (with_thread-IsSafe core turns x safe)
  session-IsSafe (command env c ∷ more) x is_stacked safe =
      let w = virtuals core sets digits env in
      let n = next w x.state c (clear_status x).app in
      let (y, run, is_stacked', rest) =
        session-IsSafe more (stacked w n) refl
          (next-IsSafe core sets digits env x.state c (clear_status x).app safe) in
      (y, rw (execute-next w c x is_stacked) run, is_stacked', rest)

  -- Whatever the commands from outside, the other thread and the environment do, in any order, from
  -- the application as it is constructed: the state machine ends without a fault, with a stack that
  -- matches its state. Unless a call of the core has faulted: in Running the thread of
  -- `process_fragments` has been started, the run is not paused, and the mutex is locked as long as
  -- the thread has not returned, and free when it has; in Paused there is no thread, the mutex is
  -- free and the run is paused; in every other state there is no thread, and a core, if it has been
  -- made, has its mutex free and no paused run.
  pub session_lem :
      (mpi_rank : ℕ) (name report : String) (status : Bool) (events : List (Event P F E))
      → (y : Context (Outcome (EventBuilderApp P F E))) × (session events (
            new (record {
              external_request_status = status;
              report_string = report;
              members = ok (App.new mpi_rank name);
            }))
          ≡ ok y)
        × IsStacked y
        × IsSafe (y.state, y.app)
  unfolding new App.new
  session_lem mpi_rank name report status events = session-IsSafe events _ refl (refl, inl refl)
