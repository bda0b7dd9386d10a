-- ===== src/Generator.antt =====
-- artdaq/Application/CommandableFragmentGenerator.hh and CommandableFragmentGenerator.cc: what a
-- board reader asks for fragments. The virtual functions of the derived class, with its state `D`,
-- are arguments; of the base they can change the event counter and the exception flag only. The
-- mutex makes `getNext_` and the second half of a stop exclude each other, so each is one step.
pub mod Composite
pub mod Next
pub mod Children
use fnal_artdaq.Base.{
  ℕ, zero, suc, ◌+◌, ◌%◌, List, [], ◌∷◌, Bool, true, false, not, Option, none, some, Outcome, ok,
  fault, configuration, require, or_fault, ◌>>=◌, ◌>>◌, if◌then◌else◌, ltb, leb, ◌==◌, length,
  get_elem?,
}
use fnal_artdaq.FragCounter.{size_t_mod}

-- An `int`.
pub data ℤ : Type 0 where
  pos negsuc : ℕ → ℤ

abbrev pub is_negative : ℤ → Bool
is_negative (pos n) = false
is_negative (negsuc n) = true

abbrev pub add_one : ℤ → ℤ
add_one (pos n) = pos (n + 1)
add_one (negsuc zero) = pos 0
add_one (negsuc (suc n)) = negsuc n

abbrev pub is_minus_99 : ℤ → Bool
is_minus_99 (pos n) = false
is_minus_99 (negsuc n) = n == 98

pub record Generator (D : Type 0) : Type 0 where
  pub fragment_ids : List ℕ
  pub run_number : ℤ
  pub subrun_number : ℤ
  pub timeout : ℕ
  pub timestamp : ℕ
  pub should_stop : Bool
  pub exception : Bool
  pub ev_counter : ℕ
  pub board_id : ℤ
  pub sleep_on_stop_us : ℕ
  pub derived : D

-- What a virtual function leaves behind: the derived object, `ev_counter_` and `exception_`.
pub record Effects (D : Type 0) : Type 0 where
  pub new_derived : D
  pub new_ev_counter : ℕ
  pub new_exception : Bool

-- `get_next_` gives `none` where it throws, and appends to the output in either case.
pub record Virtuals (D F : Type 0) : Type 0 where
  pub get_next_ : List F → Generator D → Option Bool × List F × Effects D
  pub start : Generator D → Outcome (Effects D)
  pub stop_no_mutex : Generator D → Outcome (Effects D)
  pub stop : Generator D → Outcome (Effects D)
  pub pause_no_mutex : Generator D → Outcome (Effects D)
  pub pause : Generator D → Outcome (Effects D)
  pub resume : Generator D → Outcome (Effects D)

abbrev pub apply : {D : Type 0} → Generator D → Effects D → Generator D
apply g e = record g {
  derived = e.new_derived;
  ev_counter = e.new_ev_counter;
  exception = e.new_exception;
}

-- The default constructor.
unfoldable pub new : {D : Type 0} → D → Generator D
new derived = record {
  fragment_ids = [];
  run_number = negsuc 0;
  subrun_number = negsuc 0;
  timeout = 0xffff_ffff_ffff_ffff;
  timestamp = 0xffff_ffff_ffff_ffff;
  should_stop = false;
  exception = false;
  ev_counter = 1;
  board_id = negsuc 0;
  sleep_on_stop_us = 0;
  derived = derived;
}

-- The constructor from a parameter set: the values of `board_id`, of `fragment_ids` (empty by
-- default), of `fragment_id` (-99 by default), of `sleep_on_stop_us`, and the conversion of an `int`
-- to a fragment ID.
unfoldable pub configured :
    {D : Type 0} → Option ℤ → List ℕ → ℤ → ℕ → (ℤ → ℕ) → D → Outcome (Generator D)
configured board fragment_ids fragment_id sleep to_id derived = do
  board_id ← or_fault board configuration
  ids ←
      (if is_minus_99 fragment_id
        then ok fragment_ids
        else (require (length fragment_ids == 0) configuration >> ok (to_id fragment_id ∷ [])))
  ok (record (new derived) { board_id = board_id; fragment_ids = ids; sleep_on_stop_us = sleep })

unfoldable pub fragment_id : {D : Type 0} → Generator D → Outcome ℕ
fragment_id g = do
  require (length g.fragment_ids == 1) configuration
  or_fault (get_elem? g.fragment_ids 0) configuration

-- `ev_counter_inc`: the previous value, and the counter after it.
unfoldable pub ev_counter_inc : {D : Type 0} → ℕ → Generator D → ℕ × Generator D
ev_counter_inc step g = (g.ev_counter, record g { ev_counter = (g.ev_counter + step) % size_t_mod })

module _ {D F : Type 0} (v : Virtuals D F) where
  unfoldable pub get_next : List F → Generator D → Bool × List F × Generator D
  get_next output g =
      let (answer, frags, effects) = v.get_next_ output g in
      if g.exception then (false, output, g) else elim answer [
        | none ↦ (false, frags, record (apply g effects) { exception = true })
        | some result ↦ (result, frags, apply g effects)
      ]

  unfoldable pub start_cmd : ℤ → ℕ → ℕ → Generator D → Outcome (Generator D)
  start_cmd run timeout timestamp g = do
    require (not (is_negative run)) configuration
    let started = record g {
      timeout = timeout;
      timestamp = timestamp;
      ev_counter = 1;
      should_stop = false;
      exception = false;
      run_number = run;
      subrun_number = pos 1;
    }
    effects ← v.start started
    ok (apply started effects)

  unfoldable pub stop_cmd : ℕ → ℕ → Generator D → Outcome (Generator D)
  stop_cmd timeout timestamp g = do
    let noted = record g { timeout = timeout; timestamp = timestamp }
    early ← v.stop_no_mutex noted
    let stopping = record (apply noted early) { should_stop = true }
    late ← v.stop stopping
    ok (apply stopping late)

  unfoldable pub pause_cmd : ℕ → ℕ → Generator D → Outcome (Generator D)
  pause_cmd timeout timestamp g = do
    let noted = record g { timeout = timeout; timestamp = timestamp }
    early ← v.pause_no_mutex noted
    let stopping = record (apply noted early) { should_stop = true }
    late ← v.pause stopping
    ok (apply stopping late)

  unfoldable pub resume_cmd : ℕ → ℕ → Generator D → Outcome (Generator D)
  resume_cmd timeout timestamp g = do
    let resumed = record g {
      timeout = timeout;
      timestamp = timestamp;
      subrun_number = add_one g.subrun_number;
      should_stop = false;
    }
    effects ← v.resume resumed
    ok (apply resumed effects)
