-- ===== src/EventBuilder/Inserting.antt =====
-- The loop on `try_again` of artdaq/Application/MPI2/EventBuilderCore.cc, which inserts a fragment or
-- gives it up, and what follows when it gives up.
use fnal_artdaq.Base.{
  sym, ℕ, ◌≡◌, ◌≢◌, ◌⊎◌, refl, List, [], ◌∷◌, Bool, true, false, not, ◌||◌, ◌&&◌, Option, none,
  some, if◌then◌else◌, Outcome, ok, fault, not_locked, arith, Bool-cases, inl, inr,
}
use mathlib.Core.Bool.{true≢false}
use fnal_artdaq.ArtdaqCore.{ArtdaqCore}
use fnal_artdaq.EventStore.{EventStore, insert, insert_or_reject, wait_while_full}
use fnal_artdaq.EventStore.Insert.{IsValid, insert_lem}
use fnal_artdaq.EventBuilder.{on_store, EventBuilderCore, unlock}
use fnal_artdaq.EventBuilder.Process.{
  Turn, Tallies, Attempt, try_insert, take_fragment, check_complete, outstanding, counted, one_more,
  finish,
}

-- The queue is full at the first poll and at the last one.
abbrev pub refuses : ℕ → Attempt → Bool
refuses checks a = a.full 0 && a.full (wait_while_full a.full checks 1)

-- The attempt is the last one: there is room, or one of the flags is set.
abbrev pub decides : ℕ → Attempt → Bool
decides checks a = not (refuses checks a) || (a.stop || a.pause)

abbrev pub some_decides : ℕ → List Attempt → Bool
some_decides checks [] = false
some_decides checks (a ∷ more) = decides checks a || some_decides checks more

-- The first attempt that is the last one.
abbrev pub first_deciding : ℕ → List Attempt → Option Attempt
first_deciding checks [] = none
first_deciding checks (a ∷ more) = if decides checks a then some a else first_deciding checks more

first_deciding-here :
    (checks : ℕ) (a : Attempt) (more : List Attempt)
    → decides checks a ≡ true
    → first_deciding checks (a ∷ more) ≡ some a
first_deciding-here checks a more h = rw h refl

first_deciding-later :
    (checks : ℕ) (a : Attempt) (more : List Attempt)
    → decides checks a ≡ false
    → first_deciding checks (a ∷ more) ≡ first_deciding checks more
first_deciding-later checks a more h = rw h refl

module _ {P F E : Type 0} (core : ArtdaqCore F E) where
  -- At the first attempt that has room or finds a flag set: if it has room, the fragment has been
  -- inserted; if it has not, the fragment is given up, with the store as it was.
  abbrev pub Tried :
      List Attempt
      → F
      → EventBuilderCore P F E
      → EventStore E
      → Outcome (EventBuilderCore P F E × Bool)
      → Type 0
  Tried attempts f s st r =
      (a : Attempt) × (first_deciding st.enq_check_count attempts ≡ some a)
      × (((t : EventStore E) × (refuses st.enq_check_count a ≡ false)
            × (insert core a.accepted f st ≡ ok t)
            × (r ≡ ok (record s { event_store = some t }, true)))
          ⊎ ((refuses st.enq_check_count a ≡ true)
              × ((a.stop || a.pause) ≡ true)
              × (r ≡ ok (record s { event_store = some st; flush_mutex = false }, false))))

  try_insert-room :
      (a : Attempt) (more : List Attempt) (f : F) (s : EventBuilderCore P F E) (st t : EventStore E)
      → s.event_store ≡ some st
      → refuses st.enq_check_count a ≡ false
      → insert core a.accepted f st ≡ ok t
      → try_insert core (a ∷ more) f s ≡ ok (record s { event_store = some t }, true)
  unfolding try_insert insert_or_reject
  try_insert-room a more f s st t has room run = ground (arith, has, room, run)

  try_insert-give_up :
      (a : Attempt) (more : List Attempt) (f : F) (s : EventBuilderCore P F E) (st : EventStore E)
      → s.event_store ≡ some st
      → s.flush_mutex ≡ true
      → refuses st.enq_check_count a ≡ true
      → (a.stop || a.pause) ≡ true
      → try_insert core (a ∷ more) f s
        ≡ ok (record s { event_store = some st; flush_mutex = false }, false)
  unfolding try_insert insert_or_reject unlock
  try_insert-give_up a more f s st has held full flagged = ground (arith, has, held, full, flagged)

  try_insert-again :
      (a : Attempt) (more : List Attempt) (f : F) (s : EventBuilderCore P F E) (st : EventStore E)
      → s.event_store ≡ some st
      → refuses st.enq_check_count a ≡ true
      → (a.stop || a.pause) ≡ false
      → try_insert core (a ∷ more) f s ≡ try_insert core more f (record s { event_store = some st })
  unfolding try_insert insert_or_reject
  try_insert-again a more f s st has full flagged = ground (arith, has, full, flagged)

  -- For a valid event store, a fragment with a valid ID and a mutex that is locked: if one of the
  -- attempts finds room in the queue or a flag set, the loop ends without a fault at the first such
  -- attempt. If that one finds room, the fragment has been inserted once, and the loop of
  -- `process_fragments` goes on; if it finds none, and so a flag set, nothing has been inserted, the
  -- mutex is unlocked and that loop ends.
  pub try_insert_lem :
      (attempts : List Attempt) (f : F) (s : EventBuilderCore P F E) (st : EventStore E)
      → s.event_store ≡ some st
      → s.flush_mutex ≡ true
      → IsValid core st
      → core.fragment_id f ≢ core.invalid_fragment_id
      → some_decides st.enq_check_count attempts ≡ true
      → Tried attempts f s st (try_insert core attempts f s)
  try_insert_lem [] f s st has held valid id decided = absurd (true≢false (sym decided))
  try_insert_lem (a ∷ more) f s st has held valid id decided =
      elim (Bool-cases (refuses st.enq_check_count a)) [
        | inr room ↦
            let (t, run, _, _, _) = insert_lem core a.accepted f st valid id in
            (
              a,
              first_deciding-here st.enq_check_count a more (ground (arith, room)),
              inl (t, room, run, try_insert-room a more f s st t has room run),
            )
        | inl full ↦ elim (Bool-cases (a.stop || a.pause)) [
          | inl flagged ↦ (
            a,
            first_deciding-here st.enq_check_count a more (ground (arith, full, flagged)),
            inr (full, flagged, try_insert-give_up a more f s st has held full flagged),
          )
          | inr unset ↦
              rw
                (
                  try_insert-again a more f s st has full unset,
                  first_deciding-later st.enq_check_count a more (ground (arith, full, unset)),
                )
                (try_insert_lem more f (record s { event_store = some st }) st refl held valid id
                  (ground (arith, decided, full, unset)))
        ]
      ]

  -- If the last outstanding fragment, with the end-of-data fragments of all sources received, comes
  -- back from the queue, and a flag is set, the mutex is unlocked by the loop on `try_again` and once
  -- more by the check for completeness, when it is not locked.
  pub take_fragment-unlock_twice :
      (turn : Turn F) (a : Attempt) (more : List Attempt) (slot n : ℕ) (f : F) (l : Tallies)
      (s : EventBuilderCore P F E) (st : EventStore E)
      → turn.attempts ≡ a ∷ more
      → core.type_code f ≢ core.end_of_data
      → s.event_store ≡ some st
      → s.flush_mutex ≡ true
      → refuses st.enq_check_count a ≡ true
      → (a.stop || a.pause) ≡ true
      → s.eod_fragments_received ≡ s.data_sender_count
      → outstanding (counted slot n l).received l.sent ≡ false
      → take_fragment core turn slot n f l s ≡ fault not_locked
  unfolding take_fragment check_complete finish unlock on_store
  take_fragment-unlock_twice turn a more slot n f l s st tries not_eod has held full flagged eods
        all =
      ground (
        arith,
        tries,
        not_eod,
        all,
        eods,
        try_insert-give_up a more f (one_more s) st has held full flagged,
      )
