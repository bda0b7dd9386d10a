-- ===== src/Commander/Serving.antt =====
-- The requests that the server of artdaq/ExternalComms/xmlrpc_commander.cc takes from its threads,
-- and the commands that reach the state machine.
use Prim.Native.String.{String}
use fnal_artdaq.Base.{
  ℕ, ◌≡◌, refl, sym, subst, ap, ◌∙◌, List, [], ◌∷◌, ◌++◌, Bool, true, false, Option, none, some,
  Outcome, ok, fault, ◌>>=◌,
}
use fnal_artdaq.Commandable.Machine.{Command, Virtuals, Context}
use fnal_artdaq.Commandable.{run, reset_stats, execute}
use fnal_artdaq.Commandable.Stack.{IsStacked, execute-next}
use fnal_artdaq.Commander.{
  Attempt, got, threw, Libraries, Method, Order, command, ask_status, ask_legal_commands,
  ask_report, ask_reset_stats, read_order,
}
use fnal_artdaq.Commander.Server.{
  Request, Event, arrives, served, Server, perform, answer_of, respond, handle, serve, serve_all,
}

abbrev commands_of : {P : Type 0} → Attempt (Order P) → List (Command P)
commands_of (threw why) = []
commands_of (got (command c)) = c ∷ []
commands_of (got o) = []

module _ {P S : Type 0} (lib : Libraries P) (v : Virtuals P S)
    (report : Context S → String → String) where
  -- Who has the lock after an event, and the commands of the request that it ends.
  abbrev pub after : Event → Option (ℕ × Request) → Option (ℕ × Request)
  after (arrives id q) none = some (id, q)
  after (arrives id q) (some holder) = some holder
  after served holder = none

  abbrev pub ends_with : Event → Option (ℕ × Request) → List (Command P)
  ends_with (arrives id q) holder = []
  ends_with served none = []
  ends_with served (some (id, q)) = commands_of (read_order lib q.method q.args)

  -- The commands of the requests that are served, in the order of the ends, if `holder` has the
  -- lock at first.
  abbrev pub accepted : List Event → Option (ℕ × Request) → List (Command P)
  accepted [] holder = []
  accepted (e ∷ es) holder = ends_with e holder ++ accepted es (after e holder)

  -- A call ends in a machine whose stack matches its state, which is where the commands lead.
  abbrev Leads : {A : Type 0} → (A → Context S) → List (Command P) → Context S → Outcome A → Type 0
  Leads {A} view cs x m = (r : A) × (m ≡ ok r) × (run v cs x ≡ ok (view r)) × IsStacked (view r)

  answer_of-fst :
      (x : Context S) (good : Bool) (retval : Option String)
      → (answer_of lib v report (x, good, retval)).0 ≡ x
  unfolding answer_of
  answer_of-fst x true (some text) = refl
  answer_of-fst x true none = refl
  answer_of-fst x false retval = refl

  respond-Leads :
      (m : Method) (a : Attempt (Order P)) (x : Context S)
      → IsStacked x
      → Leads (λ r. r.0) (commands_of a) x (respond lib v report m a x)
  unfolding respond perform run
  respond-Leads m (threw why) x h = (_, refl, refl, h)
  respond-Leads m (got (command c)) x h =
      let e = execute-next v c x h in
      (
        _,
        ap (λ n. n >>= (λ r. ok (r.0, r.1, none)) >>= λ r. ok (answer_of lib v report r)) e,
        ap (λ n. n >>= λ r. ok r.0) e ∙ ap ok (sym (answer_of-fst _ _ none)),
        subst IsStacked (sym (answer_of-fst _ _ none)) refl,
      )
  respond-Leads m (got ask_status) x h = (_, refl, refl, h)
  respond-Leads m (got ask_legal_commands) x h = (_, refl, refl, h)
  respond-Leads m (got (ask_report which)) x h = (_, refl, refl, h)
  respond-Leads m (got (ask_reset_stats which)) x h =
      let e = answer_of-fst x (reset_stats which) none in
      (_, refl, ap ok (sym e), subst IsStacked (sym e) h)

  bind-append :
      {A : Type 0} (m : Outcome A) (f g : A → Outcome (Context S))
      (k : Context S → Outcome (Context S))
      → ((a : A) → g a ≡ (f a >>= k))
      → (m >>= g) ≡ (m >>= f >>= k)
  bind-append (fault why) f g k e = refl
  bind-append (ok a) f g k e = e a

  run-append :
      (cs ds : List (Command P)) (x : Context S) → run v (cs ++ ds) x ≡ (run v cs x >>= run v ds)
  unfolding run
  run-append [] ds x = refl
  run-append (c ∷ cs) ds x = bind-append (execute v c x) _ _ _ λ r. run-append cs ds r.0

  serve-Leads :
      (e : Event) (x : Context S) (holder : Option (ℕ × Request)) (told : List (ℕ × String))
      → IsStacked x
      → (t : Server S) × (serve lib v report e
            (record { application = x; holder = holder; answers = told })
          ≡ ok t)
        × (run v (ends_with e holder) x ≡ ok t.application)
        × IsStacked t.application
        × (t.holder ≡ after e holder)
  unfolding serve handle run
  serve-Leads (arrives id q) x none told h = (_, refl, refl, h, refl)
  serve-Leads (arrives id q) x (some other) told h = (_, refl, refl, h, refl)
  serve-Leads served x none told h = (_, refl, refl, h, refl)
  serve-Leads served x (some (id, q)) told h =
      let (r, responds, leads, stacked_r) =
        respond-Leads q.method (read_order lib q.method q.args) x h in
      (
        _,
        ap
            (λ n. n >>= λ r.
              ok (record { application = r.0; holder = none; answers = (id, r.1) ∷ told }))
            responds,
        leads,
        stacked_r,
        refl,
      )

  -- From a machine whose stack matches its state, whatever requests come from whatever threads
  -- while others are served, the server answers without a fault, and the application ends where
  -- the commands of the requests that took the lock lead it one after another; the other requests,
  -- and those that do not read as a command, do nothing to it.
  pub serve_all-run :
      (es : List Event) (s : Server S)
      → IsStacked s.application
      → (t : Server S) × (serve_all lib v report es s ≡ ok t)
        × (run v (accepted es s.holder) s.application ≡ ok t.application)
        × IsStacked t.application
  unfolding serve_all run
  serve_all-run [] s h = (s, refl, refl, h)
  serve_all-run (e ∷ es) s h =
      let (t, served_t, leads, stacked_t, held) =
        serve-Leads e s.application s.holder s.answers h in
      let (u, served_u, leads_u, stacked_u) = serve_all-run es t stacked_t in
      (
        u,
        ap (λ n. n >>= serve_all lib v report es) served_t ∙ served_u,
        run-append (ends_with e s.holder) _ s.application
            ∙ ap (λ n. n >>= run v (accepted es (after e s.holder))) leads
            ∙ subst (λ w. run v (accepted es w) t.application ≡ ok u.application) held leads_u,
        stacked_u,
      )
