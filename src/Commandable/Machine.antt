-- ===== src/Commandable/Machine.antt =====
-- artdaq/Application/Commandable.sm: the state machine that SMC generates the class
-- `CommandableContext` from, and the virtual functions of Commandable.hh that it calls.
use Prim.Native.String.{String, ◌++◌}
use fnal_artdaq.Base.{
  ℕ, List, [], ◌∷◌, Bool, false, Outcome, ok, fault, null_pointer, if◌then◌else◌,
}

-- The states of the maps Main, InitializedMap and InRunMap.
pub data State : Type 0 where
  booted initialized ready in_run running paused : State

-- The transitions with their arguments; `P` stands for `fhicl::ParameterSet`, a run is its number.
pub data Command (P : Type 0) : Type 0 where
  init soft_init reinit : P → ℕ → ℕ → Command P
  start : ℕ → ℕ → ℕ → Command P
  stop pause resume : ℕ → ℕ → Command P
  shutdown : ℕ → Command P

-- `__func__` in the generated code of a transition.
abbrev pub func : {P : Type 0} → Command P → String
func (init _ _ _) = "init"
func (soft_init _ _ _) = "soft_init"
func (reinit _ _ _) = "reinit"
func (start _ _ _) = "start"
func (stop _ _) = "stop"
func (pause _ _) = "pause"
func (resume _ _) = "resume"
func (shutdown _) = "shutdown"

-- The members of Commandable beside the machine, and (in `members`) those of a derived class.
pub record App (S : Type 0) : Type 0 where
  pub external_request_status : Bool
  pub report_string : String
  pub members : S

-- The virtual functions; a guard's answer is its return value.
pub record Virtuals (P S : Type 0) : Type 0 where
  pub do_initialize : P → ℕ → ℕ → App S → Bool × App S
  pub do_start : ℕ → ℕ → ℕ → App S → Bool × App S
  pub do_stop : ℕ → ℕ → App S → Bool × App S
  pub do_pause : ℕ → ℕ → App S → Bool × App S
  pub do_resume : ℕ → ℕ → App S → Bool × App S
  pub do_shutdown : ℕ → App S → Bool × App S
  pub do_reinitialize : P → ℕ → ℕ → App S → Bool × App S
  pub do_soft_initialize : P → ℕ → ℕ → App S → Bool × App S
  pub booted_enter : App S → App S
  pub in_run_exit : App S → App S

-- The context: the current state, the states under it that `push` saved, and its owner.
pub record Context (S : Type 0) : Type 0 where
  pub state : State
  pub stack : List State
  pub app : App S

-- `badTransition`
unfoldable pub bad_transition : {S : Type 0} → String → App S → App S
bad_transition trans a = record a {
  report_string = "An invalid transition (" ++ trans ++ ") was requested.";
  external_request_status = false;
}

module _ {P S : Type 0} (v : Virtuals P S) where
  -- `nil`, or the end of a transition to `s`.
  abbrev to : State → List State → App S → Outcome (Context S)
  to s st a = ok (record { state = s; stack = st; app = a })

  -- `X/push(Y)` leaves `X` under `Y`.
  abbrev push : State → State → List State → App S → Outcome (Context S)
  push x y st a = to y (x ∷ st) a

  -- The entry action of Booted, and the exit action of InRun.
  abbrev enter_booted : List State → App S → Outcome (Context S)
  enter_booted st a = to booted st (v.booted_enter a)

  -- One transition. `pop(t)` runs `t` in the state that comes to the top; SMC asserts that there
  -- is one. A guarded transition whose guard fails is tried no further than the map's Default.
  unfoldable pub dispatch : State → List State → Command P → App S → Outcome (Context S)
  unfolding bad_transition
  dispatch booted st (init ps t ts) a =
      let (good, b) = v.do_initialize ps t ts a in
      if good then push initialized ready st b else to booted st b
  dispatch booted st (shutdown t) a = enter_booted st a
  dispatch initialized st (init ps t ts) a =
      let (good, b) = v.do_initialize ps t ts a in
      if good then push initialized ready st b else enter_booted st b
  dispatch initialized st (shutdown t) a =
      let (good, b) = v.do_shutdown t a in
      if good then enter_booted st b else to initialized st (bad_transition "shutdown" b)
  dispatch ready st (start id t ts) a =
      let (good, b) = v.do_start id t ts a in
      if good then push in_run running st b else to ready st b
  dispatch ready [] (init ps t ts) a = fault null_pointer
  dispatch ready (s ∷ st) (init ps t ts) a = dispatch s st (init ps t ts) a
  dispatch ready st (soft_init ps t ts) a = to ready st (v.do_soft_initialize ps t ts a).1
  dispatch ready [] (shutdown t) a = fault null_pointer
  dispatch ready (s ∷ st) (shutdown t) a = dispatch s st (shutdown t) a
  dispatch in_run st (stop t ts) a =
      let (good, b) = v.do_stop t ts a in
      if good then to ready st (v.in_run_exit b) else to in_run st (bad_transition "stop" b)
  dispatch running st (pause t ts) a =
      let (good, b) = v.do_pause t ts a in if good then to paused st b else to running st b
  dispatch running [] (stop t ts) a = fault null_pointer
  dispatch running (s ∷ st) (stop t ts) a = dispatch s st (stop t ts) a
  dispatch paused st (resume t ts) a =
      let (good, b) = v.do_resume t ts a in if good then to running st b else to paused st b
  dispatch paused [] (stop t ts) a = fault null_pointer
  dispatch paused (s ∷ st) (stop t ts) a = dispatch s st (stop t ts) a
  dispatch s st c a = to s st (bad_transition (func c) a)

  -- `fsm_.init(...)`, `fsm_.start(...)` and so on.
  unfoldable pub fire : Command P → Context S → Outcome (Context S)
  unfolding dispatch
  fire c x = dispatch x.state x.stack c x.app
