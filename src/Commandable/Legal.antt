-- ===== src/Commandable/Legal.antt =====
-- `legal_commands` of Commandable.cc against the transitions of Commandable.sm.
use Prim.Native.String.{String}
use text.Mathlib.Text.{◌==◌ as str_eq}
use fnal_artdaq.Base.{
  ℕ, ◌≡◌, refl, ap, ◌∙◌, ◌≢◌, List, [], ◌∷◌, Bool, true, false, ◌||◌, Outcome, ok, ◌>>=◌, arith,
}
use fnal_artdaq.Commandable.Machine.{
  State, booted, in_run, Command, init, soft_init, reinit, start, stop, pause, resume, shutdown,
  App, Virtuals, Context, bad_transition, func,
}
use fnal_artdaq.Commandable.{
  state_name, short_name, legal_names, legal_commands, clear_status, execute, run,
}
use fnal_artdaq.Commandable.Stack.{IsStacked, next, execute-next, run_next, run-IsStacked, stacked}

abbrev pub listed : String → List String → Bool
listed name [] = false
listed name (n ∷ ns) = str_eq n name || listed name ns

-- Virtual functions that succeed: each returns true, and leaves the status true.
abbrev pub Succeeds : {S : Type 0} → Bool × App S → Type 0
Succeeds r = (r.0 ≡ true) × (r.1.external_request_status ≡ true)

pub record AllSucceed {P S : Type 0} (v : Virtuals P S) : Type 0 where
  pub initializes : (ps : P) (t ts : ℕ) (a : App S) → Succeeds (v.do_initialize ps t ts a)
  pub starts : (id t ts : ℕ) (a : App S) → Succeeds (v.do_start id t ts a)
  pub stops : (t ts : ℕ) (a : App S) → Succeeds (v.do_stop t ts a)
  pub pauses : (t ts : ℕ) (a : App S) → Succeeds (v.do_pause t ts a)
  pub resumes : (t ts : ℕ) (a : App S) → Succeeds (v.do_resume t ts a)
  pub shuts : (t : ℕ) (a : App S) → Succeeds (v.do_shutdown t a)
  pub softly : (ps : P) (t ts : ℕ) (a : App S) → Succeeds (v.do_soft_initialize ps t ts a)
  pub enters : (a : App S) → (v.booted_enter a).external_request_status ≡ a.external_request_status
  pub exits : (a : App S) → (v.in_run_exit a).external_request_status ≡ a.external_request_status

-- The names that `legal_commands` gives for a state.
unfoldable pub legal_for : State → List String
unfolding state_name short_name legal_names
legal_for s = legal_names (short_name (state_name s))

module _ {P S : Type 0} (v : Virtuals P S) where
  next-status :
      (w : AllSucceed v) (s : State) (c : Command P) (a : App S)
      → s ≢ in_run
      → a.external_request_status ≡ true
      → (next v s c a).1.external_request_status ≡ listed (func c) (legal_for s)
  unfolding next legal_for bad_transition
  next-status w in_run c a ne h = absurd (ne refl)
  next-status w booted (shutdown t) a ne h = ground (arith, w.enters a)
  next-status w s (init ps t ts) a ne h = ground (arith, w.initializes ps t ts a)
  next-status w s (soft_init ps t ts) a ne h = ground (arith, w.softly ps t ts a)
  next-status w s (reinit ps t ts) a ne h = ground arith
  next-status w s (start id t ts) a ne h = ground (arith, w.starts id t ts a)
  next-status w s (stop t ts) a ne h = ground (arith, w.stops t ts a, w.exits (v.do_stop t ts a).1)
  next-status w s (pause t ts) a ne h = ground (arith, w.pauses t ts a)
  next-status w s (resume t ts) a ne h = ground (arith, w.resumes t ts a)
  next-status w s (shutdown t) a ne h = ground (arith, w.shuts t a, w.enters (v.do_shutdown t a).1)

  next-unlisted :
      (s : State) (c : Command P) (a : App S)
      → s ≢ in_run
      → listed (func c) (legal_for s) ≡ false
      → next v s c a ≡ (s, bad_transition (func c) a)
  unfolding next legal_for
  next-unlisted in_run c a ne h = absurd (ne refl)
  next-unlisted s (init _ _ _) a ne h = ground arith
  next-unlisted s (soft_init _ _ _) a ne h = ground arith
  next-unlisted s (reinit _ _ _) a ne h = ground arith
  next-unlisted s (start _ _ _) a ne h = ground arith
  next-unlisted s (stop _ _) a ne h = ground arith
  next-unlisted s (pause _ _) a ne h = ground arith
  next-unlisted s (resume _ _) a ne h = ground arith
  next-unlisted s (shutdown _) a ne h = ground arith

  in_run-status :
      (w : AllSucceed v) (c : Command P) (a : App S)
      → a.external_request_status ≡ true
      → (next v in_run c a).1.external_request_status ≡ str_eq (func c) "stop"
  unfolding next bad_transition
  in_run-status w (stop t ts) a h = ground (arith, w.stops t ts a, w.exits (v.do_stop t ts a).1)
  in_run-status w _ a h = ground arith

  abbrev pub status_of : Outcome (Context S × Bool) → Outcome Bool
  status_of r = r >>= λ p. ok p.1

  -- In every state but InRun, if the virtual functions succeed, `legal_commands` names exactly the
  -- commands that return true.
  pub execute-legal_commands :
      (w : AllSucceed v) (c : Command P) (x : Context S)
      → IsStacked x
      → x.state ≢ in_run
      → status_of (execute v c x) ≡ ok (listed (func c) (legal_commands x))
  unfolding legal_commands legal_for clear_status
  execute-legal_commands w c x h ne =
      rw (execute-next v c x h) (ap ok (next-status w x.state c (clear_status x).app ne refl))

  -- In every state but InRun, whatever the virtual functions do, a command that `legal_commands`
  -- does not name calls none of them: it returns false with a report, and keeps the state.
  pub execute-unlisted :
      (c : Command P) (x : Context S)
      → IsStacked x
      → x.state ≢ in_run
      → listed (func c) (legal_commands x) ≡ false
      → execute v c x ≡ ok (record x { app = bad_transition (func c) (clear_status x).app }, false)
  unfolding legal_commands legal_for clear_status bad_transition
  execute-unlisted c x h ne l =
      rw (execute-next v c x h, next-unlisted x.state c (clear_status x).app ne l, ← h) refl

  -- In InRun, where a failing `do_stop` leaves the machine, `legal_commands` names init and
  -- shutdown; but if the virtual functions succeed, stop alone returns true.
  pub in_run-legal_commands :
      (w : AllSucceed v) (c : Command P) (x : Context S)
      → IsStacked x
      → x.state ≡ in_run
      → (legal_commands x ≡ "init" ∷ "shutdown" ∷ [])
        × (status_of (execute v c x) ≡ ok (str_eq (func c) "stop"))
  unfolding legal_commands clear_status
  in_run-legal_commands w c x h e = (
    rw (e, legal_names, short_name, state_name),
    rw (execute-next v c x h, e, in_run-status w c (clear_status x).app refl),
  )

  next-shutdown :
      (w : AllSucceed v) (s : State) (t ts : ℕ) (a b : App S)
      → (next v (next v s (stop t ts) a).0 (shutdown t) b).0 ≡ booted
  unfolding next
  next-shutdown w booted t ts a b = refl
  next-shutdown w _ t ts a b = ground (arith, w.stops t ts a, w.shuts t b)

  -- From every state, stop and then shutdown bring a machine whose virtual functions succeed back
  -- to Booted with an empty stack.
  pub run-stop-shutdown :
      (w : AllSucceed v) (t ts : ℕ) (x : Context S)
      → IsStacked x
      → (a : App S) × (run v (stop t ts ∷ shutdown t ∷ []) x
          ≡ ok (record { state = booted; stack = []; app = a }))
  unfolding run_next
  run-stop-shutdown w t ts x h =
      let n = run_next v (stop t ts ∷ shutdown t ∷ []) (x.state, x.app) in
      let e : n.0 ≡ booted = next-shutdown w x.state t ts _ _ in
      (n.1, run-IsStacked v _ x h ∙ ap (λ s. ok (stacked v (s, n.1))) e)
