-- ===== src/EventBuilder/Process.antt =====
-- artdaq/Application/MPI2/EventBuilderCore.cc, `process_fragments`: the loop that receives fragments
-- into the event store until the run ends or pauses.
use fnal_artdaq.Base.{
  ℕ, ◌+◌, ◌%◌, List, [], ◌∷◌, Bool, true, false, not, ◌&&◌, ◌||◌, none, some, Outcome, ok, fault,
  null_pointer, out_of_fuel, or_fault, ◌>>=◌, ◌==◌, if◌then◌else◌, get_elem?, set, replicate,
}
use fnal_artdaq.ArtdaqCore.{ArtdaqCore}
use fnal_artdaq.FragCounter.{size_t_mod}
use fnal_artdaq.EventStore.{flush_data, insert_or_reject}
use fnal_artdaq.RHandles.{Arrival}
use fnal_artdaq.RHandles
use fnal_artdaq.RHandles.Receive.{any_source, recv_timeout, from, recv_fragment}
use fnal_artdaq.EventBuilder.{EventBuilderCore, on_store, unlock}

-- One attempt to insert: what the calls of `full()` and the enqueue answer, and the two flags as
-- they are read if the fragment comes back.
pub record Attempt : Type 0 where
  pub full : ℕ → Bool
  pub accepted : Bool
  pub stop : Bool
  pub pause : Bool

-- What the environment does in one turn of the loop: MPI in `recvFragment`, the two flags as they
-- are read before and after it, the queue of the event store.
pub record Turn (F : Type 0) : Type 0 where
  pub cancels : ℕ → Bool
  pub polls : ℕ → List (Arrival F)
  pub waited : Arrival F
  pub stop_before : Bool
  pub pause_before : Bool
  pub stop_after : Bool
  pub pause_after : Bool
  pub attempts : List Attempt
  pub flushes : ℕ → Bool

-- The local variables `fragments_received` and `fragments_sent`.
pub record Tallies : Type 0 where
  pub received : List ℕ
  pub sent : List ℕ

-- `fragmentsOutstanding`; both vectors have the same size.
unfoldable pub outstanding : List ℕ → List ℕ → Bool
outstanding [] _ = false
outstanding (r ∷ received) [] = true
outstanding (r ∷ received) (n ∷ sent) = if r == n then outstanding received sent else true

-- `fragments_received[senderSlot] += 1;`
abbrev pub counted : ℕ → ℕ → Tallies → Tallies
counted slot n l = record l { received = set l.received slot ((n + 1) % size_t_mod) }

module _ {P F E : Type 0} where
  unfoldable pub recv_timeout_usec : Turn F → EventBuilderCore P F E → ℕ
  recv_timeout_usec turn s =
      if turn.stop_before
      then s.endrun_recv_timeout_usec
      else if turn.pause_before
      then s.pause_recv_timeout_usec
      else s.inrun_recv_timeout_usec

  -- Whether a timeout ends the loop.
  unfoldable pub timeout_ends : Turn F → EventBuilderCore P F E → Bool
  unfolding recv_timeout_usec
  timeout_ends turn s =
      turn.stop_after && recv_timeout_usec turn s == s.endrun_recv_timeout_usec
      || turn.pause_after && recv_timeout_usec turn s == s.pause_recv_timeout_usec

  -- `++fragment_count_in_run_;`
  abbrev pub one_more : EventBuilderCore P F E → EventBuilderCore P F E
  one_more s = record s { fragment_count_in_run = (s.fragment_count_in_run + 1) % size_t_mod }

module _ {P F E : Type 0} (core : ArtdaqCore F E) where
  -- `flushData`, `unlock`, and the end of the loop: the flag is `process_fragments`.
  unfoldable pub finish :
      (ℕ → Bool) → EventBuilderCore P F E → Outcome (EventBuilderCore P F E × Bool)
  unfolding on_store unlock
  finish flushes s = do
    t ← on_store (λ store. (flush_data core flushes store).0) s
    u ← unlock t
    ok (u, false)

  unfoldable pub on_timeout :
      Turn F → EventBuilderCore P F E → Outcome (EventBuilderCore P F E × Bool)
  unfolding timeout_ends finish
  on_timeout turn s = if timeout_ends turn s then finish turn.flushes s else ok (s, true)

  -- The loop on `try_again`.
  unfoldable pub try_insert :
      List Attempt → F → EventBuilderCore P F E → Outcome (EventBuilderCore P F E × Bool)
  unfolding unlock
  try_insert [] f s = fault out_of_fuel
  try_insert (a ∷ more) f s = do
    store ← or_fault s.event_store null_pointer
    (t, rejected) ← insert_or_reject core a.full a.accepted f store
    elim rejected [
      | none ↦ ok (record s { event_store = some t }, true)
      | some g ↦ elim (a.stop || a.pause) [
        | true ↦ unlock (record s { event_store = some t }) >>= λ u. ok (u, false)
        | false ↦ try_insert more g (record s { event_store = some t })
      ]
    ]

  -- "If we've received EOD fragments from all of the BoardReaders …"; `going` is the flag so far.
  unfoldable pub check_complete :
      (ℕ → Bool) → Tallies → EventBuilderCore P F E × Bool → Outcome (EventBuilderCore P F E × Bool)
  unfolding finish outstanding
  check_complete flushes l (s, going) =
      if s.eod_fragments_received == s.data_sender_count && not (outstanding l.received l.sent)
      then finish flushes s
      else ok (s, going)

  -- A fragment from a slot within bounds, whose counter stands at `n`.
  unfoldable pub take_fragment :
      Turn F
      → ℕ
      → ℕ
      → F
      → Tallies
      → EventBuilderCore P F E
      → Outcome (Tallies × (EventBuilderCore P F E × Bool))
  unfolding try_insert check_complete
  take_fragment turn slot n f l s =
      if not (core.type_code f == core.end_of_data)
      then (do
        r ← try_insert turn.attempts f (one_more s)
        u ← check_complete turn.flushes (counted slot n l) r
        ok (counted slot n l, u))
      else (do
        let l' = record (counted slot n l) {
          sent = set l.sent slot ((core.first_word f + 1) % size_t_mod);
        }
        let s' = record (one_more s) {
          eod_fragments_received = (s.eod_fragments_received + 1) % size_t_mod;
        }
        u ← check_complete turn.flushes l' (s', true)
        ok (l', u))

  -- One turn of the loop. The result is the flag `process_fragments`, which the next turn tests.
  unfoldable pub turn_of :
      Turn F
      → Tallies
      → EventBuilderCore P F E
      → Outcome (Tallies × (EventBuilderCore P F E × Bool))
  unfolding recv_timeout_usec on_timeout finish take_fragment
  turn_of turn l s = do
    receiver ← or_fault s.receiver null_pointer
    (result, r) ←
        recv_fragment core turn.cancels turn.polls turn.waited (recv_timeout_usec turn s) receiver
    let t = record s { receiver = some r }
    elim result [
      | any_source ↦ finish turn.flushes t >>= λ u. ok (l, u)
      | recv_timeout ↦ on_timeout turn t >>= λ u. ok (l, u)
      | from slot f ↦ elim (get_elem? l.received slot) [
        | none ↦ ok (l, (t, true))
        | some n ↦ take_fragment turn slot n f l t
      ]
    ]

  unfoldable pub process_loop :
      List (Turn F) → Tallies → EventBuilderCore P F E → Outcome (Tallies × EventBuilderCore P F E)
  unfolding turn_of
  process_loop [] l s = fault out_of_fuel
  process_loop (turn ∷ more) l s = do
    (l', (t, going)) ← turn_of turn l s
    elim going [ true ↦ process_loop more l' t | false ↦ ok (l', t) ]

  -- The vectors of zeros, and the receiver, which lives as long as the loop.
  unfoldable pub process_fragments :
      List (Turn F) → EventBuilderCore P F E → Outcome (EventBuilderCore P F E)
  unfolding process_loop
  process_fragments turns s = do
    let slots = s.data_sender_count + s.first_data_sender_rank
    r ←
        RHandles.new s.mpi_buffer_count s.max_fragment_size_words s.data_sender_count
          s.first_data_sender_rank
    (l, t) ←
        process_loop turns (record { received = replicate slots 0; sent = replicate slots 0 })
          (record s { receiver = some r })
    ok (record t { receiver = none })
