-- ===== src/Commander/Counting.antt =====
-- How often the server of artdaq/ExternalComms/xmlrpc_commander.cc answers a request.
use Prim.Native.String.{String}
use fnal_artdaq.Base.{
  ℕ, ◌+◌, ◌≡◌, List, [], ◌∷◌, Option, none, some, ok, Ends, ended, Ends-any, Ends-bind, Ends-map,
  Ends-of, if◌then◌else◌, ◌==◌, arith,
}
use fnal_artdaq.Commandable.Machine.{Virtuals, Context}
use fnal_artdaq.Commander.{Libraries}
use fnal_artdaq.Commander.Server.{Request, Event, arrives, served, Server, handle, serve, serve_all}

abbrev pub once : ℕ → ℕ → ℕ
once t id = if id == t then 1 else 0

-- How many answers went to the thread `t`, how many of its requests have the lock, and how many
-- requests of it come.
abbrev pub answered_to : ℕ → List (ℕ × String) → ℕ
answered_to t [] = 0
answered_to t ((id, text) ∷ told) = once t id + answered_to t told

abbrev pub waiting : ℕ → Option (ℕ × Request) → ℕ
waiting t none = 0
waiting t (some (id, q)) = once t id

abbrev pub comes : ℕ → Event → ℕ
comes t (arrives id q) = once t id
comes t served = 0

abbrev pub arrivals : ℕ → List Event → ℕ
arrivals t [] = 0
arrivals t (e ∷ es) = comes t e + arrivals t es

module _ {P S : Type 0} (lib : Libraries P) (v : Virtuals P S)
    (report : Context S → String → String) where
  abbrev pub accounted : ℕ → Server S → ℕ
  accounted t s = answered_to t s.answers + waiting t s.holder

  serve-accounted :
      (t : ℕ) (e : Event) (x : Context S) (holder : Option (ℕ × Request)) (told : List (ℕ × String))
      → Ends
          (λ s. accounted t s ≡ comes t e + (answered_to t told + waiting t holder))
          (serve lib v report e (record { application = x; holder = holder; answers = told }))
  unfolding serve
  serve-accounted t (arrives id q) x none told = ended (omega arith)
  serve-accounted t (arrives id q) x (some other) told = ended (omega arith)
  serve-accounted t served x none told = ended (omega arith)
  serve-accounted t served x (some (id, q)) told =
      Ends-any (handle lib v report q x) λ r. ended (omega arith)

  serve_all-Ends :
      (t : ℕ) (es : List Event) (s : Server S)
      → Ends (λ u. accounted t u ≡ arrivals t es + accounted t s) (serve_all lib v report es s)
  unfolding serve_all
  serve_all-Ends t [] s = ended (omega arith)
  serve_all-Ends t (e ∷ es) s =
      Ends-bind (serve-accounted t e s.application s.holder s.answers)
        λ u here. Ends-map (λ w there. omega arith) (serve_all-Ends t es u)

  -- Whatever events the server goes through, if it ends without a fault, every request that came is
  -- accounted for, thread by thread: it has been answered once or, if it is the one that has the
  -- lock, it waits for its answer.
  pub serve_all-accounted :
      (t : ℕ) (es : List Event) (s u : Server S)
      → serve_all lib v report es s ≡ ok u
      → answered_to t u.answers + waiting t u.holder
        ≡ arrivals t es + (answered_to t s.answers + waiting t s.holder)
  serve_all-accounted t es s u h = Ends-of (serve_all-Ends t es s) h
