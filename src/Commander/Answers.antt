-- ===== src/Commander/Answers.antt =====
-- What `execute` of artdaq/ExternalComms/xmlrpc_commander.cc answers to the request of a command.
use Prim.Native.String.{String}
use fnal_artdaq.Base.{
  ◌≡◌, ◌≢◌, ◌∙◌, ◌⊎◌, inl, inr, none, fault, Bool-cases, ok-injective, refl, ap, Bool, true, false,
  Outcome, ok, ◌>>=◌, if◌then◌else◌,
}
use fnal_artdaq.Commandable.Machine.{
  Command, in_run, Virtuals, Context, func, bad_transition, bad_transition,
}
use fnal_artdaq.Commandable.{execute, legal_commands, clear_status}
use fnal_artdaq.Commandable.Stack.{IsStacked}
use fnal_artdaq.Commandable.Legal.{AllSucceed, listed, execute-legal_commands, execute-unlisted}
use fnal_artdaq.Commander.{got, threw, Thrown, Libraries, Method, help, command, read_order}
use fnal_artdaq.Commander.Server.{
  Request, perform, answer_of, respond, handle, exception_msg, text_of,
}

module _ {P S : Type 0} (lib : Libraries P) (v : Virtuals P S)
    (report : Context S → String → String) where
  abbrev told_of : Context S × Bool → Context S × String
  told_of (y, good) = (y, if good then "Success" else report y "all")

  respond-command :
      (m : Method) (c : Command P) (x : Context S)
      → respond lib v report m (got (command c)) x ≡ (execute v c x >>= λ r. ok (told_of r))
  unfolding respond perform answer_of
  respond-command m c x = go (execute v c x)
    where
      told : (p : Context S × Bool) → answer_of lib v report (p.0, p.1, none) ≡ told_of p
      told (y, true) = refl
      told (y, false) = refl

      go :
          (r : Outcome (Context S × Bool))
          → (r >>= (λ p. ok (p.0, p.1, none)) >>= λ p. ok (answer_of lib v report p))
            ≡ (r >>= λ p. ok (told_of p))
      go (fault why) = refl
      go (ok p) = ap ok (told p)

  abbrev pub refused : String → Context S → Context S
  refused name x = record x { app = bad_transition name (clear_status x).app }

  handle-command :
      (q : Request) (c : Command P) (x : Context S)
      → read_order lib q.method q.args ≡ got (command c)
      → handle lib v report q x ≡ (execute v c x >>= λ r. ok (told_of r))
  unfolding handle
  handle-command q c x e =
      ap (λ o. respond lib v report q.method o x) e ∙ respond-command q.method c x

  good_of :
      (r : Outcome (Context S × Bool)) (good : Bool)
      → (r >>= λ p. ok p.1) ≡ ok good
      → (y : Context S) × (r ≡ ok (y, good))
  good_of (fault why) good e = cc
  good_of (ok (y, b)) good e = (y, ap (λ g. ok (y, g)) (ok-injective _ _ e))

  -- If the virtual functions succeed, the stack matches the state, and the state is not InRun: a
  -- request that reads as a command is answered with "Success" if `legal_commands` names the
  -- command; if not, the answer is the report of the application, which is then told of an invalid
  -- transition and otherwise as it was.
  pub handle-legal_commands :
      (w : AllSucceed v) (q : Request) (c : Command P) (x : Context S)
      → IsStacked x
      → x.state ≢ in_run
      → read_order lib q.method q.args ≡ got (command c)
      → ((listed (func c) (legal_commands x) ≡ true)
          × ((y : Context S) × (handle lib v report q x ≡ ok (y, "Success"))))
        ⊎ ((listed (func c) (legal_commands x) ≡ false)
            × (handle lib v report q x
                ≡ ok (refused (func c) x, report (refused (func c) x) "all")))
  handle-legal_commands w q c x h ne e = elim (Bool-cases (listed (func c) (legal_commands x))) [
    | inl l ↦
        let (y, r) = good_of (execute v c x) true (execute-legal_commands v w c x h ne ∙ ap ok l) in
        inl (l, (y, handle-command q c x e ∙ ap (λ r. r >>= λ p. ok (told_of p)) r))
    | inr l ↦ inr (
      l,
      handle-command q c x e ∙ ap (λ r. r >>= λ p. ok (told_of p)) (execute-unlisted v c x h ne l),
    )
  ]

  handle-threw :
      (q : Request) (x : Context S) (why : Thrown)
      → read_order lib q.method q.args ≡ threw why
      → handle lib v report q x ≡ ok (x, exception_msg (text_of why) (help q.method))
  unfolding handle respond
  handle-threw q x why e = ap (λ o. respond lib v report q.method o x) e
