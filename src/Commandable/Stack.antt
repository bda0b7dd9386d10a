-- ===== src/Commandable/Stack.antt =====
-- The stack of the state machine: it always matches the state, so `pop` never fails.
use fnal_artdaq.Base.{ap, ◌∙◌, ◌≡◌, refl, List, [], ◌∷◌, Bool, ok, if◌then◌else◌, arith}
use fnal_artdaq.Commandable.Machine.{
  State, booted, initialized, ready, in_run, running, paused, Command, init, soft_init, start, stop,
  pause, resume, shutdown, App, Virtuals, Context, dispatch, fire, bad_transition, func,
}
use fnal_artdaq.Commandable.{new, clear_status, execute, request, run}

-- The states that `push` has saved under a state.
abbrev pub under : State → List State
under booted = []
under initialized = []
under ready = initialized ∷ []
under in_run = initialized ∷ []
under running = in_run ∷ initialized ∷ []
under paused = in_run ∷ initialized ∷ []

abbrev pub IsStacked : {S : Type 0} → Context S → Type 0
IsStacked x = x.stack ≡ under x.state

module _ {P S : Type 0} (v : Virtuals P S) where
  abbrev reinitialized : Bool × App S → State × App S
  reinitialized (good, b) = if good then (ready, b) else (booted, v.booted_enter b)

  abbrev shut : Bool × App S → State × App S
  shut (good, b) =
      if good then (booted, v.booted_enter b) else (initialized, bad_transition "shutdown" b)

  abbrev stopped : Bool × App S → State × App S
  stopped (good, b) = if good then (ready, v.in_run_exit b) else (in_run, bad_transition "stop" b)

  -- The machine without its stack: what a transition does to the state and to the owner.
  unfoldable pub next : State → Command P → App S → State × App S
  unfolding bad_transition
  next booted (init ps t ts) a =
      let (good, b) = v.do_initialize ps t ts a in if good then (ready, b) else (booted, b)
  next booted (shutdown t) a = (booted, v.booted_enter a)
  next initialized (init ps t ts) a = reinitialized (v.do_initialize ps t ts a)
  next initialized (shutdown t) a = shut (v.do_shutdown t a)
  next ready (init ps t ts) a = reinitialized (v.do_initialize ps t ts a)
  next ready (shutdown t) a = shut (v.do_shutdown t a)
  next ready (start id t ts) a =
      let (good, b) = v.do_start id t ts a in if good then (running, b) else (ready, b)
  next ready (soft_init ps t ts) a = (ready, (v.do_soft_initialize ps t ts a).1)
  next in_run (stop t ts) a = stopped (v.do_stop t ts a)
  next running (stop t ts) a = stopped (v.do_stop t ts a)
  next running (pause t ts) a =
      let (good, b) = v.do_pause t ts a in if good then (paused, b) else (running, b)
  next paused (stop t ts) a = stopped (v.do_stop t ts a)
  next paused (resume t ts) a =
      let (good, b) = v.do_resume t ts a in if good then (running, b) else (paused, b)
  next s c a = (s, bad_transition (func c) a)

  abbrev pub stacked : State × App S → Context S
  stacked (s, a) = record { state = s; stack = under s; app = a }

  dispatch-next :
      (s : State) (c : Command P) (a : App S)
      → dispatch v s (under s) c a ≡ ok (stacked (next s c a))
  unfolding dispatch next
  dispatch-next booted (init _ _ _) a = ground arith
  dispatch-next _ _ a = ground arith

  abbrev pub answered : State × App S → Context S × Bool
  answered n = (stacked n, n.1.external_request_status)

  execute-request : (c : Command P) (x : Context S) → execute v c x ≡ request v c x
  unfolding execute
  execute-request (init _ _ _) x = refl
  execute-request _ x = refl

  -- From a machine whose stack matches its state, a command from outside ends without a fault, in
  -- the state and with the owner that the machine without a stack gives, and returns the status.
  pub execute-next :
      (c : Command P) (x : Context S)
      → IsStacked x
      → execute v c x ≡ ok (answered (next x.state c (clear_status x).app))
  unfolding request clear_status fire
  execute-next c x h =
      rw (execute-request c x, request, h, dispatch-next x.state c (clear_status x).app)

  unfoldable pub run_next : List (Command P) → State × App S → State × App S
  run_next [] n = n
  run_next (c ∷ cs) n = run_next cs (next n.0 c (clear_status (stacked n)).app)

  run-stacked :
      (cs : List (Command P)) (n : State × App S)
      → run v cs (stacked n) ≡ ok (stacked (run_next cs n))
  unfolding run run_next
  run-stacked [] n = refl
  run-stacked (c ∷ cs) n =
      rw (execute-next c (stacked n) refl)
        (run-stacked cs (next n.0 c (clear_status (stacked n)).app))

  stacked-eta : (x : Context S) → IsStacked x → x ≡ stacked (x.state, x.app)
  stacked-eta x h = λ i. record { state = x.state; stack = h i; app = x.app }

  pub run-IsStacked :
      (cs : List (Command P)) (x : Context S)
      → IsStacked x
      → run v cs x ≡ ok (stacked (run_next cs (x.state, x.app)))
  run-IsStacked cs x h = ap (run v cs) (stacked-eta x h) ∙ run-stacked cs (x.state, x.app)

  -- Whatever the virtual functions do, no sequence of commands makes the machine pop an empty
  -- stack: the run ends in a machine whose stack matches its state, and it is the run of the
  -- machine without a stack.
  pub run-run_next :
      (cs : List (Command P)) (a : App S)
      → run v cs (new a) ≡ ok (stacked (run_next cs (booted, a)))
  unfolding new
  run-run_next cs a = run-stacked cs (booted, a)
