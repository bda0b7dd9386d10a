-- ===== src/Aggregator/Closing.antt =====
-- How a subrun ends in artdaq/Application/MPI2/AggregatorCore.cc: what the message about its end
-- does, and when it is sent.
use fnal_artdaq.Base.{
  ◌==◌, leb, ◌&&◌, not, get_elem?, ◌<◌, Option-cases, ◌>>=◌, Bool-cases, ℕ, ◌≡◌, ◌≢◌, ◌≤◌, ◌⊎◌, inl,
  inr, refl, ap, ◌∙◌, List, [], ◌∷◌, ◌++◌, Bool, true, false, none, some, ok, arith, length,
  if◌then◌else◌,
}
use fnal_artdaq.ArtdaqCore.{ArtdaqCore}
use fnal_artdaq.EventStore.{EventStore, flush_data, enqueue}
use fnal_artdaq.EventStore.Flush.{flush_data_lem, markers}
use fnal_artdaq.EventBuilder.Process.{outstanding}
use fnal_artdaq.Aggregator.{AggregatorCore, on_store}
use fnal_artdaq.Aggregator.Process.{Turn, Locals, true_data_sender_count, send_subrun}
use fnal_artdaq.Aggregator.Loop.{check_complete}

-- The vectors differ exactly if some fragment is outstanding.
outstanding_lem :
    (received sent : List ℕ)
    → length received ≡ length sent
    → ((outstanding received sent ≡ false) × (received ≡ sent))
      ⊎ ((outstanding received sent ≡ true) × (received ≢ sent))
unfolding outstanding
outstanding_lem [] [] _ = inl (refl, refl)
outstanding_lem [] (n ∷ sent) e = absurd (omega (arith, e))
outstanding_lem (r ∷ received) [] e = absurd (omega (arith, e))
outstanding_lem (r ∷ received) (n ∷ sent) e = elim (Bool-cases (r == n)) [
  | inl same ↦
      let r_n : r ≡ n = ground (arith, same) in
      elim (outstanding_lem received sent (omega (arith, e))) [
        | inl (counted, equal) ↦ inl (rw same counted, cc)
        | inr (missing, different) ↦ inr (rw same missing, λ h. different cc)
      ]
  | inr other ↦ inr (rw other refl, λ h. absurd (ground (arith, other, ap (λ l. get_elem? l 0) h)))
]

module _ {P F E : Type 0} (core : ArtdaqCore F E) where
  -- The store after the message.
  abbrev closed : Turn F → F → AggregatorCore P F E → EventStore E → EventStore E
  closed turn f s store =
      let t = (flush_data core turn.flushes store).0 in
      record t {
        queue =
            enqueue turn.subrun_accepted
              (some (core.insert_fragment f (core.new_event s.run_id 1 0))) t.queue;
      }

  -- The condition of the check.
  abbrev is_complete : Locals F → AggregatorCore P F E → Bool
  is_complete l s =
      leb (true_data_sender_count s) l.eod_fragments_received
      && not (s.is_data_logger && outstanding l.received l.sent)

  -- With an event store, the message about the end of a subrun goes to art behind what the store
  -- still held, unless the queue refuses it: the queue gets a first part of the events that are not
  -- complete, all of them if the flush returns true, and then an event that is made of the message
  -- alone and has the number of the run and the subrun 1.
  pub send_subrun_lem :
      (turn : Turn F) (f : F) (s : AggregatorCore P F E) (st : EventStore E)
      → s.event_store ≡ some st
      → (t : EventStore E) × (xs : List (ℕ × E)) × (ys : List (ℕ × E)) × (e : E) × (send_subrun core
            turn f s
          ≡ ok (record s { event_store = some t }))
        × (xs ++ ys ≡ st.events)
        × (((flush_data core turn.flushes st).1 ≡ false) ⊎ (ys ≡ []))
        × (t.queue ≡ (
            if turn.subrun_accepted
            then (st.queue ++ markers xs) ++ some e ∷ []
            else st.queue ++ markers xs))
        × (t.events ≡ ys)
        × (core.contents e ≡ f ∷ [])
        × (core.run_of e ≡ s.run_id)
        × (core.subrun_of e ≡ 1)
  unfolding send_subrun on_store enqueue
  send_subrun_lem turn f s st has =
      let (xs, ys, whole, all_accepted, queued, kept, flushed, done) =
        flush_data_lem core turn.flushes st in
      let fresh = core.new_event s.run_id 1 0 in
      (
        closed turn f s st,
        xs,
        ys,
        core.insert_fragment f fresh,
        rw has refl,
        whole,
        ground (arith, done),
        ground (arith, queued),
        kept,
        core.contents-insert_fragment f fresh
            ∙ ap (◌++ (f ∷ [])) (core.contents-new_event s.run_id 1 0),
        core.run_of-insert_fragment f fresh ∙ core.run_of-new_event s.run_id 1 0,
        core.subrun_of-insert_fragment f fresh ∙ core.subrun_of-new_event s.run_id 1 0,
      )

  check_complete-sends :
      (turn : Turn F) (l : Locals F) (s : AggregatorCore P F E) (f : F)
      → l.end_subrun_msg ≡ some f
      → is_complete l s ≡ true
      → check_complete core turn l (s, true)
        ≡ (send_subrun core turn f s >>= λ t. ok (record l { end_subrun_msg = none }, (t, false)))
  unfolding check_complete
  check_complete-sends turn l s f message complete = rw (message, complete) refl

  check_complete-waits :
      (turn : Turn F) (l : Locals F) (s : AggregatorCore P F E) (f : F)
      → l.end_subrun_msg ≡ some f
      → is_complete l s ≡ false
      → check_complete core turn l (s, true) ≡ ok (l, (s, true))
  unfolding check_complete
  check_complete-waits turn l s f message waits = rw (message, waits) refl

  is_complete_lem :
      (l : Locals F) (s : AggregatorCore P F E)
      → length l.received ≡ length l.sent
      → ((is_complete l s ≡ true)
          × (true_data_sender_count s ≤ l.eod_fragments_received)
          × ((s.is_data_logger ≡ false) ⊎ (l.received ≡ l.sent)))
        ⊎ ((is_complete l s ≡ false)
            × ((l.eod_fragments_received < true_data_sender_count s)
                ⊎ ((s.is_data_logger ≡ true) × (l.received ≢ l.sent))))
  is_complete_lem l s same = let all = outstanding_lem l.received l.sent same in ground (arith, all)

  -- The check at the end of a turn that has not ended the loop, with counts of the same length: the
  -- loop ends, with the message about the end of the subrun sent, if there is such a message, the
  -- end-of-data fragments of all senders have come, and either this is not the data logger or each
  -- slot has as many fragments received as sent; in all other cases nothing happens.
  pub check_complete_lem :
      (turn : Turn F) (l : Locals F) (s : AggregatorCore P F E)
      → length l.received ≡ length l.sent
      → ((f : F) × (l.end_subrun_msg ≡ some f)
          × (true_data_sender_count s ≤ l.eod_fragments_received)
          × ((s.is_data_logger ≡ false) ⊎ (l.received ≡ l.sent))
          × (check_complete core turn l (s, true) ≡ (
              send_subrun core turn f s >>= λ t.
              ok (record l { end_subrun_msg = none }, (t, false)))))
        ⊎ ((check_complete core turn l (s, true) ≡ ok (l, (s, true)))
            × ((l.end_subrun_msg ≡ none)
                ⊎ ((l.eod_fragments_received < true_data_sender_count s)
                    ⊎ ((s.is_data_logger ≡ true) × (l.received ≢ l.sent)))))
  unfolding check_complete
  check_complete_lem turn l s same = elim (Option-cases l.end_subrun_msg) [
    | inl no_message ↦ inr (rw no_message refl, inl no_message)
    | inr (f, message) ↦ elim (is_complete_lem l s same) [
      | inl (complete, eods, all) ↦
          inl (f, message, eods, all, check_complete-sends turn l s f message complete)
      | inr (waits, why) ↦ inr (check_complete-waits turn l s f message waits, inr why)
    ]
  ]
