-- ===== src/Aggregator/Session.antt =====
-- The aggregator under the state machine of Commandable: artdaq/Application/MPI2/AggregatorApp.cc
-- driven by commands from outside.
use Prim.Native.String.{String}
use fnal_artdaq.Base.{
  ℕ, ◌≡◌, refl, List, [], ◌∷◌, Bool, true, false, Outcome, ok, ◌>>=◌, ended, Ends-map, arith,
}
use mathlib.Core.Bool.{false≢true}
use fnal_artdaq.ArtdaqCore.{ArtdaqCore}
use fnal_artdaq.Parameters.{ParameterSets, Lookup}
use fnal_artdaq.Commandable.Machine.{
  Virtuals, State, booted, initialized, ready, in_run, running, paused, Command, init, soft_init,
  start, stop, pause, resume, shutdown, App, Context, bad_transition,
}
use fnal_artdaq.Commandable.{new, clear_status, execute}
use fnal_artdaq.Commandable.Stack.{next, stacked, execute-next, IsStacked}
use fnal_artdaq.Commandable.Guarded.{guarded, alive}
use fnal_artdaq.Commandable.Sound.{
  branch, IsSafe, Goes, guarded-IsSafe, reported-IsSafe, ready-IsSafe, members-IsSound,
}
use fnal_artdaq.Aggregator.App.{
  AggregatorApp, Environment, do_initialize, do_start, do_stop, do_pause, do_resume, do_shutdown,
  do_soft_initialize, virtuals,
}
use fnal_artdaq.Aggregator.App
use fnal_artdaq.Aggregator.Clients.{Boost}
use fnal_artdaq.Aggregator.Guards.{
  IsSound, Threads, Idles, do_start-Threads, do_resume-Threads, do_stop-Threads, do_pause-Threads,
  do_shutdown-Idles, do_initialize-Idles,
}

module _ {P F E : Type 0} where
  -- The states with a thread, or with a core and none.
  started :
      (t : State) (r : Bool × App (AggregatorApp P F E)) → Threads true r → Goes IsSound running t r
  started t (true, a) h = (h.1, h.2)
  started t (false, a) h = absurd (false≢true h.0)

  suspended :
      (t : State) (r : Bool × App (AggregatorApp P F E)) → Threads false r → Goes IsSound paused t r
  suspended t (true, a) h = (h.1, h.2)
  suspended t (false, a) h = absurd (false≢true h.0)

  stopped :
      (t : State) (r : Bool × App (AggregatorApp P F E)) → Threads false r → Goes IsSound ready t r
  stopped t (true, a) h = h.1
  stopped t (false, a) h = absurd (false≢true h.0)

  -- The states between runs are alike.
  idles :
      (s t : State)
      → ((m : AggregatorApp P F E) → m.future ≡ false → IsSound s m)
      → ((m : AggregatorApp P F E) → m.future ≡ false → IsSound t m)
      → (r : Bool × App (AggregatorApp P F E)) → Idles r
      → Goes IsSound s t r
  idles s t there back (true, a) h = there a.members h
  idles s t there back (false, a) h = back a.members h

module _ {P F E : Type 0} (core : ArtdaqCore F E) (sets : ParameterSets P)
    (get_megabytes : String → P → Lookup ℕ) (boost : Boost) (digits : ℕ → String)
    (env : Environment P F E) where
  abbrev v : Virtuals P (Outcome (AggregatorApp P F E))
  v = virtuals core sets get_megabytes boost digits env

  init-IsSafe :
      (pset : P) (a : App (Outcome (AggregatorApp P F E)))
      → ((m : AggregatorApp P F E) → a.members ≡ ok m → m.future ≡ false)
      → IsSafe IsSound (branch ready booted (v.do_initialize pset 0 0 a))
  unfolding virtuals
  init-IsSafe pset a rests =
      guarded-IsSafe IsSound (do_initialize sets get_megabytes boost env.memory pset) ready booted a
        λ m e.
          Ends-map (idles ready booted (λ m r. r) (λ m r. r))
            (do_initialize-Idles sets get_megabytes boost env.memory pset (alive m a) (rests m e))

  shutdown-IsSafe :
      (a : App (Outcome (AggregatorApp P F E)))
      → ((m : AggregatorApp P F E) → a.members ≡ ok m → m.future ≡ false)
      → IsSafe IsSound (branch booted initialized (v.do_shutdown 0 a))
  unfolding virtuals
  shutdown-IsSafe a rests =
      guarded-IsSafe IsSound (do_shutdown core env) booted initialized a λ m e.
        Ends-map (idles booted initialized (λ m r. r) (λ m r. r))
          (do_shutdown-Idles core env (alive m a) (rests m e))

  stop-IsSafe :
      (t : State) (a : App (Outcome (AggregatorApp P F E)))
      → IsSafe IsSound (branch ready t (v.do_stop 0 0 a))
  unfolding virtuals
  stop-IsSafe t a =
      guarded-IsSafe IsSound (do_stop core env) ready t a
        λ m e. Ends-map (stopped t) (do_stop-Threads core env (alive m a))

  next-IsSafe :
      (s : State) (c : Command P) (a : App (Outcome (AggregatorApp P F E)))
      → IsSafe IsSound (s, a)
      → IsSafe IsSound (next v s c a)
  unfolding next virtuals bad_transition do_soft_initialize
  next-IsSafe booted (init pset t ts) a safe =
      init-IsSafe pset a λ m e. members-IsSound IsSound booted a safe e
  next-IsSafe initialized (init pset t ts) a safe =
      init-IsSafe pset a λ m e. members-IsSound IsSound initialized a safe e
  next-IsSafe ready (init pset t ts) a safe =
      init-IsSafe pset a λ m e. members-IsSound IsSound ready a safe e
  next-IsSafe initialized (shutdown t) a safe =
      reported-IsSafe IsSound "shutdown" booted initialized (guarded (do_shutdown core env) a)
        (shutdown-IsSafe a λ m e. members-IsSound IsSound initialized a safe e)
  next-IsSafe ready (shutdown t) a safe =
      reported-IsSafe IsSound "shutdown" booted initialized (guarded (do_shutdown core env) a)
        (shutdown-IsSafe a λ m e. members-IsSound IsSound ready a safe e)
  next-IsSafe ready (soft_init pset t ts) a safe =
      ready-IsSafe IsSound (guarded (do_soft_initialize pset) a) (
        guarded-IsSafe IsSound (do_soft_initialize pset) ready ready a
          λ m e. ended (members-IsSound IsSound ready a safe e))
  next-IsSafe ready (start run t ts) a safe =
      guarded-IsSafe IsSound (do_start env.now run (digits run)) running ready a
        λ m e. Ends-map (started ready) (do_start-Threads env.now run (digits run) (alive m a))
  next-IsSafe in_run (stop t ts) a safe =
      reported-IsSafe IsSound "stop" ready in_run (guarded (do_stop core env) a)
        (stop-IsSafe in_run a)
  next-IsSafe running (stop t ts) a safe =
      reported-IsSafe IsSound "stop" ready in_run (guarded (do_stop core env) a)
        (stop-IsSafe in_run a)
  next-IsSafe paused (stop t ts) a safe =
      reported-IsSafe IsSound "stop" ready in_run (guarded (do_stop core env) a)
        (stop-IsSafe in_run a)
  next-IsSafe running (pause t ts) a safe =
      guarded-IsSafe IsSound (do_pause core env) paused running a
        λ m e. Ends-map (suspended running) (do_pause-Threads core env (alive m a))
  next-IsSafe paused (resume t ts) a safe =
      guarded-IsSafe IsSound (do_resume env.now) running paused a
        λ m e. Ends-map (started paused) (do_resume-Threads env.now (alive m a))
  next-IsSafe s c a safe = ground (arith, safe)

module _ {P F E : Type 0} (core : ArtdaqCore F E) (sets : ParameterSets P)
    (get_megabytes : String → P → Lookup ℕ) (boost : Boost) (digits : ℕ → String) where
  -- Commands one after another, each with what the environment does meanwhile.
  unfoldable pub session :
      List (Environment P F E × Command P)
      → Context (Outcome (AggregatorApp P F E))
      → Outcome (Context (Outcome (AggregatorApp P F E)))
  unfolding execute virtuals
  session [] x = ok x
  session ((env, c) ∷ more) x =
      execute (virtuals core sets get_megabytes boost digits env) c x >>= λ r. session more r.0

  session-IsSafe :
      (commands : List (Environment P F E × Command P))
      (x : Context (Outcome (AggregatorApp P F E)))
      → IsStacked x
      → IsSafe IsSound (x.state, x.app)
      → (y : Context (Outcome (AggregatorApp P F E))) × (session commands x ≡ ok y)
        × IsStacked y
        × IsSafe IsSound (y.state, y.app)
  unfolding session clear_status
  session-IsSafe [] x is_stacked safe = (x, refl, is_stacked, safe)
  session-IsSafe ((env, c) ∷ more) x is_stacked safe =
      let w = virtuals core sets get_megabytes boost digits env in
      let n = next w x.state c (clear_status x).app in
      let (y, run, is_stacked', rest) = session-IsSafe more (stacked w n) refl (
        next-IsSafe core sets get_megabytes boost digits env x.state c (clear_status x).app safe) in
      (y, rw (execute-next w c x is_stacked) run, is_stacked', rest)

  -- Whatever the commands from outside and the environment do, from the application as it is
  -- constructed: the state machine ends without a fault, with a stack that matches its state; and
  -- unless a call of the core has faulted, the thread of `process_fragments` exists in the state
  -- Running and in no other, and there is a core in Running and in Paused.
  pub aggregator_session_lem :
      (mpi_rank : ℕ) (name report : String) (status : Bool)
      (commands : List (Environment P F E × Command P))
      → (y : Context (Outcome (AggregatorApp P F E))) × (session commands (
            new (record {
              external_request_status = status;
              report_string = report;
              members = ok (App.new mpi_rank name);
            }))
          ≡ ok y)
        × IsStacked y
        × IsSafe IsSound (y.state, y.app)
  unfolding new App.new
  aggregator_session_lem mpi_rank name report status commands = session-IsSafe commands _ refl refl
