-- ===== src/EventBuilder/Guards.antt =====
-- What the guards of artdaq/Application/MPI2/EventBuilderApp.cc make of the application, by the state
-- that the machine of Commandable is in.
use Prim.Native.String.{◌++◌, String}
use fnal_artdaq.Base.{
  Ends-option, Ends-map, sym, Ends-or_fault, ℕ, ◌≡◌, refl, subst, ◌∙◌, ◌⊎◌, inl, inr, List, Bool,
  true, false, none, some, Outcome, ok, null_pointer, if◌then◌else◌, Ends, ended, Ends-bind,
}
use fnal_artdaq.ArtdaqCore.{ArtdaqCore}
use fnal_artdaq.Parameters.{ParameterSets}
use fnal_artdaq.Parameters.Keeping.{Answered}
use fnal_artdaq.Commandable.Machine.{State, ready, running, paused, App}
use fnal_artdaq.EventBuilder.{
  EventBuilderCore, start, stop, pause, resume, shutdown, soft_initialize,
}
use fnal_artdaq.EventBuilder
use fnal_artdaq.EventBuilder.Process.{Turn, process_fragments}
use fnal_artdaq.EventBuilder.Configure.{initialize}
use fnal_artdaq.EventBuilder.Configuring.{initialize-Untouched}
use fnal_artdaq.EventBuilder.Framing.{IsStable, process_fragments-keeps}
use fnal_artdaq.EventBuilder.App.{
  with_pset, EventBuilderApp, Future, invalid, pending, returned, Environment, do_initialize,
  do_start, do_stop, do_pause, do_resume, do_shutdown, do_soft_initialize, others, call,
}
use mathlib.Core.Option.{none-ne-some, some-injective}
use fnal_artdaq.EventBuilder.Standing.{
  Stands, Answers, Suspended, Waits, start-Stands, resume-Stands, stop-Stands, pause-Stands,
  shutdown-Stands,
}

module _ {P F E : Type 0} where
  -- There is a core, with the mutex locked or not, in a paused run or not.
  abbrev pub HasCore : Bool → Bool → EventBuilderApp P F E → Type 0
  HasCore locked suspended m =
      (b : EventBuilderCore P F E) × (m.event_builder ≡ some b) × Stands locked suspended b

  -- Between runs: no thread, and the mutex of the core, if there is one, is free.
  abbrev pub Rests : EventBuilderApp P F E → Type 0
  Rests m = (m.future ≡ invalid) × ((m.event_builder ≡ none) ⊎ HasCore false false m)

  -- What holds of the application in a state. In Running the mutex is locked exactly as long as the
  -- thread has not returned.
  abbrev pub IsSound : State → EventBuilderApp P F E → Type 0
  IsSound running m =
      ((m.future ≡ pending) × HasCore true false m)
      ⊎ ((m.future ≡ returned) × HasCore false false m)
  IsSound paused m = (m.future ≡ invalid) × HasCore false true m
  IsSound _ m = Rests m

  -- A guard that answers `true`, and leaves the application as it is in a state.
  abbrev pub Leads : State → Bool × App (EventBuilderApp P F E) → Type 0
  Leads state (good, a) = (good ≡ true) × IsSound state a.members

  -- A guard that answers anything between runs.
  abbrev pub Remains : Bool × App (EventBuilderApp P F E) → Type 0
  Remains (good, a) = Rests a.members

  pub Waits-IsStable : (suspended : Bool) → IsStable (Suspended {P = P} {F = F} {E = E} suspended)
  Waits-IsStable suspended = record { counts = λ _ _ _ _ s q. q; store = λ st s q. q }

  -- A call of the core through its pointer.
  call-Ends :
      (Q : EventBuilderCore P F E × Bool → Type 0) (R : Bool × App (EventBuilderApp P F E) → Type 0)
      (problem : String) (f : EventBuilderCore P F E → Outcome (EventBuilderCore P F E × Bool))
      (a : App (EventBuilderApp P F E))
      → ((b : EventBuilderCore P F E) → a.members.event_builder ≡ some b → Ends Q (f b))
      → ((b : EventBuilderCore P F E) (good : Bool)
          → Q (b, good)
          → R (
            good,
            record a {
              report_string = if good then "" else problem;
              external_request_status = good;
              members = record (a.members) { event_builder = some b };
            },
          ))
      → Ends R (call problem f a)
  call-Ends Q R problem f a ends gives =
      Ends-or_fault a.members.event_builder null_pointer
        λ b e. Ends-bind (ends b e) λ (b', good) q. ended (gives b' good q)

  abbrev Begins : Bool → Bool → Bool × App (EventBuilderApp P F E) → Type 0
  Begins locked suspended (good, a) = (good ≡ true) × HasCore locked suspended a.members

  -- A call after which the core stands in a certain way.
  call-Begins :
      (locked suspended : Bool) (problem : String)
      (f : EventBuilderCore P F E → Outcome (EventBuilderCore P F E × Bool))
      (a : App (EventBuilderApp P F E))
      → ((b : EventBuilderCore P F E)
          → a.members.event_builder ≡ some b
          → Ends (Answers locked suspended) (f b))
      → Ends (Begins locked suspended) (call problem f a)
  call-Begins locked suspended problem f a ends =
      call-Ends (Answers locked suspended) (Begins locked suspended) problem f a ends
        λ b good (h, answer). (answer, (b, refl, h))

  -- A call that changes neither the mutex nor the flag of a pause, between runs.
  call-Remains :
      (problem : String) (f : EventBuilderCore P F E → Outcome (EventBuilderCore P F E × Bool))
      (a : App (EventBuilderApp P F E))
      → Rests a.members
      → ((b : EventBuilderCore P F E)
          → Stands false false b
          → Ends (Answered (Stands false false)) (f b))
      → Ends Remains (call problem f a)
  call-Remains problem f a (idle, core_is) ends =
      call-Ends (Answered (Stands false false)) Remains problem f a
        (λ b e. ends b (elim core_is [
          | inl gone ↦ absurd (none-ne-some _ (sym gone ∙ e))
          | inr (c, has, h) ↦ subst (Stands false false) (some-injective _ _ (sym has ∙ e)) h
        ]))
        λ b good h. (idle, inr (b, refl, h))

module _ {P F E : Type 0} (core : ArtdaqCore F E) where
  others-Waits :
      (turns : List (Turn F)) (m : EventBuilderApp P F E) (suspended : Bool)
      → Waits suspended (others core turns m)
  unfolding others
  others-Waits turns m suspended b h = by_future m.future
    where
      by_future :
          (future : Future)
          → Ends (Suspended suspended) (elim future [
            | invalid ↦ ok b
            | pending ↦ process_fragments core turns b
            | returned ↦ ok b
          ])
      by_future invalid = ended h
      by_future pending =
          process_fragments-keeps (Suspended suspended) (Waits-IsStable suspended) core turns b h
      by_future returned = ended h

  pub do_start-Leads :
      (turns : List (Turn F)) (run : ℕ) (digits : String) (a : App (EventBuilderApp P F E))
      → Ends (Leads running) (do_start core turns run digits a)
  unfolding do_start
  do_start-Leads turns run digits a =
      Ends-bind
        (call-Begins true false _ (start run (others core turns a.members)) a
          λ b e. start-Stands run _ b (others-Waits turns a.members false))
        λ r (answer, h). ended (answer, inl (refl, h))

  pub do_resume-Leads :
      (turns : List (Turn F)) (a : App (EventBuilderApp P F E))
      → IsSound paused a.members
      → Ends (Leads running) (do_resume core turns a)
  unfolding do_resume
  do_resume-Leads turns a (idle, (c, has, h)) =
      Ends-bind
        (call-Begins true false _ (resume (others core turns a.members)) a λ b e.
          resume-Stands _ b (others-Waits turns a.members true)
            (subst (Suspended true) (some-injective _ _ (sym has ∙ e)) h.1))
        λ r (answer, h'). ended (answer, inl (refl, h'))

  pub do_pause-Leads :
      (env : Environment P F E) (a : App (EventBuilderApp P F E))
      → Ends (Leads paused) (do_pause core env a)
  unfolding do_pause
  do_pause-Leads env a =
      Ends-bind
        (call-Begins false true _ (pause core env.subrun_answers (others core env.turns a.members))
          a λ b e. pause-Stands core env.subrun_answers (others core env.turns a.members) b)
        λ r (answer, h). ended (answer, (refl, h))

  pub do_stop-Leads :
      (env : Environment P F E) (a : App (EventBuilderApp P F E))
      → Ends (Leads ready) (do_stop core env a)
  unfolding do_stop
  do_stop-Leads env a =
      Ends-bind
        (call-Begins false false _
          (stop core env.subrun_answers env.run_answers (others core env.turns a.members)) a
          λ b e.
            stop-Stands core env.subrun_answers env.run_answers (others core env.turns a.members) b)
        λ r (answer, h). ended (answer, (refl, inr h))

  pub do_shutdown-Remains :
      (env : Environment P F E) (a : App (EventBuilderApp P F E))
      → Rests a.members
      → Ends Remains (do_shutdown core env a)
  unfolding do_shutdown
  do_shutdown-Remains env a rests =
      call-Remains _ (shutdown core env.data_answers env.reader_result) a rests
        λ b h. shutdown-Stands core env.data_answers env.reader_result b h

module _ {P F E : Type 0} (sets : ParameterSets P) where
  pub do_soft_initialize-Remains :
      (pset : P) (a : App (EventBuilderApp P F E))
      → Rests a.members
      → Ends Remains (do_soft_initialize sets pset a)
  unfolding do_soft_initialize soft_initialize
  do_soft_initialize-Remains pset a rests =
      call-Remains ("Error soft-initializing " ++ a.members.name ++ with_pset sets pset)
        (soft_initialize pset) a rests λ b h. ended h

  initialize-Stands :
      (pset : P) (b : EventBuilderCore P F E)
      → Stands false false b
      → Ends (Answered (Stands false false)) (initialize sets pset b)
  initialize-Stands pset b h =
      Ends-map (λ (t, good) q. (q.0 ∙ h.0, q.1 ∙ h.1)) (initialize-Untouched sets b pset)

  Rests-new :
      (memory : EventBuilderCore P F E) (m : EventBuilderApp P F E)
      → m.future ≡ invalid
      → Rests (record m { event_builder = some (EventBuilder.new m.mpi_rank memory) })
  unfolding EventBuilder.new
  Rests-new memory m idle = (idle, inr (_, refl, (refl, refl)))

  pub do_initialize-Remains :
      (memory : EventBuilderCore P F E) (pset : P) (a : App (EventBuilderApp P F E))
      → Rests a.members
      → Ends Remains (do_initialize sets memory pset a)
  unfolding do_initialize
  do_initialize-Remains memory pset a rests =
      Ends-option a.members.event_builder
        (call-Remains
          ("Error initializing an EventBuilderCore named" ++ a.members.name ++ with_pset sets pset)
          (initialize sets pset)
          (record a {
            members = record (a.members) {
              event_builder = some (EventBuilder.new a.members.mpi_rank memory);
            };
          })
          (Rests-new memory a.members rests.0) λ b h. initialize-Stands pset b h)
        λ b. ended rests
