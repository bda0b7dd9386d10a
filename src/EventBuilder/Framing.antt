-- ===== src/EventBuilder/Framing.antt =====
-- What `process_fragments` of artdaq/Application/MPI2/EventBuilderCore.cc leaves true of the core.
use fnal_artdaq.Base.{
  ℕ, ◌+◌, ◌%◌, List, [], ◌∷◌, Bool, true, false, Option, none, some, or_fault, null_pointer, Ends,
  Ends-any, Ends-bind, Ends-if, Ends-bool, Ends-option, ◌||◌, ◌&&◌, not, faulted, ended, ◌==◌,
  get_elem?, set, replicate,
}
use fnal_artdaq.ArtdaqCore.{ArtdaqCore}
use fnal_artdaq.FragCounter.{size_t_mod}
use fnal_artdaq.EventStore.{EventStore, insert_or_reject, flush_data}
use fnal_artdaq.RHandles.{RHandles}
use fnal_artdaq.RHandles
use fnal_artdaq.RHandles.Receive.{recv_fragment}
use fnal_artdaq.EventBuilder.{EventBuilderCore, on_store, unlock}
use fnal_artdaq.EventBuilder.Process.{
  Turn, Tallies, Attempt, finish, on_timeout, try_insert, check_complete, take_fragment, turn_of,
  process_loop, process_fragments, timeout_ends, outstanding, one_more, counted, recv_timeout_usec,
}
use fnal_artdaq.EventBuilder.Unlocking.{Ends-received}

-- Predicates that only see what the loop does not change; the event store may become another one.
pub record IsStable {P F E : Type 0} (Q : EventBuilderCore P F E → Type 0) : Type 0 where
  pub counts :
      (receiver : Option (RHandles F)) (eods count : ℕ) (mutex : Bool) (s : EventBuilderCore P F E)
      → Q s
      → Q (record s {
        receiver = receiver;
        eod_fragments_received = eods;
        fragment_count_in_run = count;
        flush_mutex = mutex;
      })
  pub store :
      (store : EventStore E) (s : EventBuilderCore P F E)
      → Q s
      → Q (record s { event_store = some store })

module _ {P F E : Type 0} (Q : EventBuilderCore P F E → Type 0) (stable : IsStable Q) where
  abbrev pub First : EventBuilderCore P F E × Bool → Type 0
  First (s, going) = Q s

  abbrev Second : Tallies × EventBuilderCore P F E → Type 0
  Second (l, s) = Q s

  abbrev Inner : Tallies × (EventBuilderCore P F E × Bool) → Type 0
  Inner (l, r) = First r

  on_store-keeps :
      (change : EventStore E → EventStore E) (s : EventBuilderCore P F E)
      → Q s
      → Ends Q (on_store change s)
  unfolding on_store
  on_store-keeps change s q =
      Ends-any (or_fault s.event_store null_pointer) λ st. ended (stable.store (change st) s q)

  unlock-keeps : (s : EventBuilderCore P F E) → Q s → Ends Q (unlock s)
  unfolding unlock
  unlock-keeps s q = Ends-if s.flush_mutex (ended (stable.counts _ _ _ false s q)) faulted

  module _ (core : ArtdaqCore F E) where
    finish-keeps :
        (flushes : ℕ → Bool) (s : EventBuilderCore P F E) → Q s → Ends First (finish core flushes s)
    unfolding finish
    finish-keeps flushes s q =
        Ends-bind (on_store-keeps (λ st. (flush_data core flushes st).0) s q)
          λ t h. Ends-bind (unlock-keeps t h) λ u h'. ended h'

    try_insert-keeps :
        (attempts : List Attempt) (f : F) (s : EventBuilderCore P F E)
        → Q s
        → Ends First (try_insert core attempts f s)
    unfolding try_insert
    try_insert-keeps [] f s q = faulted
    try_insert-keeps (a ∷ more) f s q = Ends-any (or_fault s.event_store null_pointer) λ st.
        Ends-any (insert_or_reject core a.full a.accepted f st) λ (t, rejected).
          let q' = stable.store t s q in
          Ends-option rejected (ended q') λ g.
            Ends-bool (a.stop || a.pause)
              (Ends-bind (unlock-keeps (record s { event_store = some t }) q') λ u h. ended h)
              (try_insert-keeps more g (record s { event_store = some t }) q')

    check_complete-keeps :
        (flushes : ℕ → Bool) (l : Tallies) (r : EventBuilderCore P F E × Bool)
        → First r
        → Ends First (check_complete core flushes l r)
    unfolding check_complete
    check_complete-keeps flushes l (s, going) q =
        Ends-if
          (s.eod_fragments_received == s.data_sender_count && not (outstanding l.received l.sent))
          (finish-keeps flushes s q) (ended q)

    take_fragment-keeps :
        (turn : Turn F) (slot n : ℕ) (f : F) (l : Tallies) (s : EventBuilderCore P F E)
        → Q s
        → Ends Inner (take_fragment core turn slot n f l s)
    unfolding take_fragment
    take_fragment-keeps turn slot n f l s q =
        Ends-if (not (core.type_code f == core.end_of_data))
          (Ends-bind (try_insert-keeps turn.attempts f (one_more s) (stable.counts _ _ _ _ s q))
            λ r h.
              Ends-bind (check_complete-keeps turn.flushes (counted slot n l) r h) λ u h'. ended h')
          (Ends-bind
            (check_complete-keeps turn.flushes
              (record (counted slot n l) {
                sent = set l.sent slot ((core.first_word f + 1) % size_t_mod);
              })
              (
                record (one_more s) {
                  eod_fragments_received = (s.eod_fragments_received + 1) % size_t_mod;
                },
                true,
              )
              (stable.counts _ _ _ _ s q))
            λ u h'. ended h')

    turn_of-keeps :
        (turn : Turn F) (l : Tallies) (s : EventBuilderCore P F E)
        → Q s
        → Ends Inner (turn_of core turn l s)
    unfolding turn_of on_timeout
    turn_of-keeps turn l s q = Ends-any (or_fault s.receiver null_pointer) λ receiver.
        Ends-any
          (recv_fragment core turn.cancels turn.polls turn.waited (recv_timeout_usec turn s)
            receiver)
          λ (result, r).
            let t = record s { receiver = some r } in
            let q' : Q t = stable.counts (some r) _ _ _ s q in
            Ends-received result (Ends-bind (finish-keeps turn.flushes t q') λ u h. ended h)
              (Ends-bind (Ends-if (timeout_ends turn t) (finish-keeps turn.flushes t q') (ended q'))
                λ u h. ended h)
              λ slot f.
                Ends-option (get_elem? l.received slot) (ended q')
                  λ n. take_fragment-keeps turn slot n f l t q'

    process_loop-keeps :
        (turns : List (Turn F)) (l : Tallies) (s : EventBuilderCore P F E)
        → Q s
        → Ends Second (process_loop core turns l s)
    unfolding process_loop
    process_loop-keeps [] l s q = faulted
    process_loop-keeps (turn ∷ more) l s q =
        Ends-bind (turn_of-keeps turn l s q)
          λ (l', (t, going)) h. Ends-bool going (process_loop-keeps more l' t h) (ended h)

    pub process_fragments-keeps :
        (turns : List (Turn F)) (s : EventBuilderCore P F E)
        → Q s
        → Ends Q (process_fragments core turns s)
    unfolding process_fragments
    process_fragments-keeps turns s q =
        let slots = s.data_sender_count + s.first_data_sender_rank in
        Ends-any
          (RHandles.new s.mpi_buffer_count s.max_fragment_size_words s.data_sender_count
            s.first_data_sender_rank)
          λ r.
            Ends-bind
              (process_loop-keeps turns
                (record { received = replicate slots 0; sent = replicate slots 0 })
                (record s { receiver = some r }) (stable.counts (some r) _ _ _ s q))
              λ (l, t) h. ended (stable.counts none _ _ _ t h)
