-- ===== src/EventBuilder/Unlocking.antt =====
-- The protocol of `flush_mutex` in the loop of artdaq/Application/MPI2/EventBuilderCore.cc: whoever
-- runs the loop holds the mutex, and a turn unlocks it exactly if it is the last one.
use fnal_artdaq.Base.{
  Ends-bool, Ends-bool_eq, Ends-if, Ends-option, ◌%◌, set, ℕ, ◌+◌, ◌≡◌, refl, List, [], ◌∷◌, Bool,
  true, false, some, ok, or_fault, null_pointer, Ends, Ends-any, Ends-bind, ◌||◌, fault, not_locked,
  if◌then◌else◌, faulted, ended, ◌==◌, ◌&&◌, not, Outcome, get_elem?, replicate,
}
use fnal_artdaq.ArtdaqCore.{ArtdaqCore}
use fnal_artdaq.EventStore.{insert_or_reject, flush_data}
use fnal_artdaq.RHandles
use fnal_artdaq.RHandles.Receive.{Received, recv_fragment, any_source, recv_timeout, from}
use fnal_artdaq.EventBuilder.{EventBuilderCore, on_store, unlock}
use fnal_artdaq.FragCounter.{size_t_mod}
use fnal_artdaq.EventBuilder.Process.{
  Turn, Tallies, Attempt, finish, on_timeout, try_insert, check_complete, take_fragment, turn_of,
  process_loop, process_fragments, timeout_ends, outstanding, one_more, counted, recv_timeout_usec,
}

module _ {P F E : Type 0} where
  -- The mutex is locked exactly if the loop goes on.
  abbrev pub IsHeld : EventBuilderCore P F E × Bool → Type 0
  IsHeld (s, going) = s.flush_mutex ≡ going

  abbrev pub IsFree : EventBuilderCore P F E → Type 0
  IsFree s = s.flush_mutex ≡ false

  abbrev pub IsTurned : Tallies × (EventBuilderCore P F E × Bool) → Type 0
  IsTurned (l, r) = IsHeld r

  abbrev pub IsOver : Tallies × EventBuilderCore P F E → Type 0
  IsOver (l, s) = IsFree s

  pub unlock-IsFree : (s : EventBuilderCore P F E) → Ends IsFree (unlock s)
  unfolding unlock
  unlock-IsFree s =
      elim s.flush_mutex
        as (λ b.
          Ends IsFree (if b then ok (record s { flush_mutex = false }) else fault not_locked)) [
            | true ↦ ended refl
            | false ↦ faulted
          ]

-- The three ways in which `recvFragment` returns.
pub Ends-received {ℓ κ} :
    {A : Type ℓ} {Q : A → Type κ} {F : Type 0} (result : Received F) {x y : Outcome A}
    {k : ℕ → F → Outcome A}
    → Ends Q x
    → Ends Q y
    → ((slot : ℕ) (f : F) → Ends Q (k slot f))
    → Ends Q (elim result [ any_source ↦ x | recv_timeout ↦ y | from slot f ↦ k slot f ])
Ends-received any_source p q rest = p
Ends-received recv_timeout p q rest = q
Ends-received (from slot f) p q rest = rest slot f

module _ {P F E : Type 0} (core : ArtdaqCore F E) where
  finish-IsHeld :
      (flushes : ℕ → Bool) (s : EventBuilderCore P F E) → Ends IsHeld (finish core flushes s)
  unfolding finish
  finish-IsHeld flushes s =
      Ends-any (on_store (λ store. (flush_data core flushes store).0) s)
        λ t. Ends-bind (unlock-IsFree t) λ u h. ended h

  try_insert-IsHeld :
      (attempts : List Attempt) (f : F) (s : EventBuilderCore P F E)
      → s.flush_mutex ≡ true
      → Ends IsHeld (try_insert core attempts f s)
  unfolding try_insert
  try_insert-IsHeld [] f s held = faulted
  try_insert-IsHeld (a ∷ more) f s held = Ends-any (or_fault s.event_store null_pointer) λ store.
      Ends-any (insert_or_reject core a.full a.accepted f store) λ (t, rejected).
        Ends-option rejected (ended held) λ g.
          Ends-bool (a.stop || a.pause)
            (Ends-bind (unlock-IsFree (record s { event_store = some t })) λ u h. ended h)
            (try_insert-IsHeld more g (record s { event_store = some t }) held)

  check_complete-IsHeld :
      (flushes : ℕ → Bool) (l : Tallies) (r : EventBuilderCore P F E × Bool)
      → IsHeld r
      → Ends IsHeld (check_complete core flushes l r)
  unfolding check_complete
  check_complete-IsHeld flushes l (s, going) h =
      Ends-if
        (s.eod_fragments_received == s.data_sender_count && not (outstanding l.received l.sent))
        (finish-IsHeld flushes s) (ended h)

  on_timeout-IsHeld :
      (turn : Turn F) (s : EventBuilderCore P F E)
      → s.flush_mutex ≡ true
      → Ends IsHeld (on_timeout core turn s)
  unfolding on_timeout
  on_timeout-IsHeld turn s held =
      Ends-if (timeout_ends turn s) (finish-IsHeld turn.flushes s) (ended held)

  take_fragment-IsHeld :
      (turn : Turn F) (slot n : ℕ) (f : F) (l : Tallies) (s : EventBuilderCore P F E)
      → s.flush_mutex ≡ true
      → Ends IsTurned (take_fragment core turn slot n f l s)
  unfolding take_fragment
  take_fragment-IsHeld turn slot n f l s held =
      Ends-if (not (core.type_code f == core.end_of_data))
        (Ends-bind (try_insert-IsHeld turn.attempts f (one_more s) held) λ r h.
          Ends-bind (check_complete-IsHeld turn.flushes (counted slot n l) r h) λ u h'. ended h')
        (Ends-bind
          (check_complete-IsHeld turn.flushes
            (record (counted slot n l) {
              sent = set l.sent slot ((core.first_word f + 1) % size_t_mod);
            })
            (
              record (one_more s) {
                eod_fragments_received = (s.eod_fragments_received + 1) % size_t_mod;
              },
              true,
            )
            held)
          λ u h'. ended h')

  turn_of-IsHeld :
      (turn : Turn F) (l : Tallies) (s : EventBuilderCore P F E)
      → s.flush_mutex ≡ true
      → Ends IsTurned (turn_of core turn l s)
  unfolding turn_of
  turn_of-IsHeld turn l s held = Ends-any (or_fault s.receiver null_pointer) λ receiver.
      Ends-any
        (recv_fragment core turn.cancels turn.polls turn.waited (recv_timeout_usec turn s) receiver)
        λ (result, r).
          let t = record s { receiver = some r } in
          Ends-received result (Ends-bind (finish-IsHeld turn.flushes t) λ u h. ended h)
            (Ends-bind (on_timeout-IsHeld turn t held) λ u h. ended h)
            λ slot f.
              Ends-option (get_elem? l.received slot) (ended held)
                λ n. take_fragment-IsHeld turn slot n f l t held

  process_loop-IsFree :
      (turns : List (Turn F)) (l : Tallies) (s : EventBuilderCore P F E)
      → s.flush_mutex ≡ true
      → Ends IsOver (process_loop core turns l s)
  unfolding process_loop
  process_loop-IsFree [] l s held = faulted
  process_loop-IsFree (turn ∷ more) l s held =
      Ends-bind (turn_of-IsHeld turn l s held) λ (l', (t, going)) h.
        Ends-bool_eq t.flush_mutex going h (process_loop-IsFree more l' t) λ free. ended free

  -- If the mutex is locked when `process_fragments` begins, and it returns, the mutex is unlocked
  -- then: over all its turns it has been unlocked once.
  pub process_fragments-IsFree :
      (turns : List (Turn F)) (s : EventBuilderCore P F E)
      → s.flush_mutex ≡ true
      → Ends IsFree (process_fragments core turns s)
  unfolding process_fragments
  process_fragments-IsFree turns s held =
      let slots = s.data_sender_count + s.first_data_sender_rank in
      Ends-any
        (RHandles.new s.mpi_buffer_count s.max_fragment_size_words s.data_sender_count
          s.first_data_sender_rank)
        λ r.
          Ends-bind
            (process_loop-IsFree turns
              (record { received = replicate slots 0; sent = replicate slots 0 })
              (record s { receiver = some r }) held)
            λ (l, t) free. ended free
