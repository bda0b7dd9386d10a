-- ===== src/EventStore/Flush.antt =====
-- `EventStore::flushData`, and what a flush that the queue interrupts leaves behind.
use fnal_artdaq.Base.{
  ℕ, suc, ◌+◌, ◌<◌, ◌≡◌, refl, ap, sym, ◌∙◌, ◌≢◌, ◌⊎◌, inl, inr, List, [], ◌∷◌, ◌++◌, map, Bool,
  true, false, Option, some, leb, if◌then◌else◌, arith, length, length-append, append_assoc,
  append-nil, Bool-cases,
}
use fnal_artdaq.ArtdaqCore.{ArtdaqCore}
use fnal_artdaq.OrderedMap.{erase}
use fnal_artdaq.EventStore.{EventStore, flush_loop, erase_all, flush_data}
use fnal_artdaq.EventStore.Insert.{IsValid}

abbrev keys : {E : Type 0} → List (ℕ × E) → List ℕ
keys = map λ p. p.0

abbrev pub markers : {E : Type 0} → List (ℕ × E) → List (Option E)
markers = map λ p. some p.1

-- The events that a flush hands over: those before the first refusal.
unfoldable taken : {E : Type 0} → (ℕ → Bool) → ℕ → List (ℕ × E) → List (ℕ × E)
taken answers n [] = []
taken answers n (p ∷ m) = let rest = taken answers (suc n) m in if answers n then p ∷ rest else []

unfoldable left : {E : Type 0} → (ℕ → Bool) → ℕ → List (ℕ × E) → List (ℕ × E)
left answers n [] = []
left answers n (p ∷ m) = let rest = left answers (suc n) m in if answers n then rest else p ∷ m

-- The queue accepts the event of every poll from the n-th on, one for each of these.
abbrev pub AllAccepted : {E : Type 0} → (ℕ → Bool) → ℕ → List (ℕ × E) → Type 0
AllAccepted answers n [] = Unit
AllAccepted answers n (p ∷ m) = (answers n ≡ true) × AllAccepted answers (suc n) m

taken-AllAccepted :
    {E : Type 0} (answers : ℕ → Bool) (n : ℕ) (m : List (ℕ × E))
    → AllAccepted answers n (taken answers n m)
unfolding taken
taken-AllAccepted answers n [] = tt
taken-AllAccepted answers n (p ∷ m) = elim (Bool-cases (answers n)) [
  | inl room ↦ rw room (room, taken-AllAccepted answers (suc n) m)
  | inr full ↦ rw full tt
]

taken-append-left :
    {E : Type 0} (answers : ℕ → Bool) (n : ℕ) (m : List (ℕ × E))
    → taken answers n m ++ left answers n m ≡ m
unfolding taken left
taken-append-left answers n [] = refl
taken-append-left answers n (p ∷ m) = ground (arith, taken-append-left answers (suc n) m)

-- What is left is nothing, or it begins with the event that was refused.
left_refused :
    {E : Type 0} (answers : ℕ → Bool) (n k : ℕ) (m : List (ℕ × E))
    → n + length (taken answers n m) ≡ k
    → (left answers n m ≡ []) ⊎ ((left answers n m ≢ []) × (answers k ≡ false))
unfolding taken left
left_refused answers n k [] h = inl refl
left_refused answers n k (p ∷ m) h = elim (Bool-cases (answers n)) [
  | inl room ↦ rw room (left_refused answers (suc n) k m (ground arith))
  | inr full ↦ let e : n ≡ k = ground arith in rw full (inr (λ e. cc, rw (← e) full))
]

erase_all-keys : {E : Type 0} (xs ys : List (ℕ × E)) → erase_all (keys xs) (xs ++ ys) ≡ ys
unfolding erase_all erase
erase_all-keys [] ys = refl
erase_all-keys ((k, e) ∷ xs) ys = ground (arith, erase_all-keys xs ys)

length-keys : {E : Type 0} (m : List (ℕ × E)) → length (keys m) ≡ length m
length-keys [] = refl
length-keys (p ∷ m) = ap suc (length-keys m)

length-pos : {A : Type 0} (l : List A) → l ≢ [] → 0 < length l
length-pos [] h = absurd (h refl)
length-pos (x ∷ l) h = omega arith

module _ {F E : Type 0} (core : ArtdaqCore F E) (answers : ℕ → Bool) where
  flush_loop-keys :
      (n : ℕ) (m : List (ℕ × E)) (s : EventStore E)
      → (flush_loop core answers n m s).0 ≡ keys (taken answers n m)
  unfolding flush_loop taken
  flush_loop-keys n [] s = refl
  flush_loop-keys n ((k, e) ∷ m) s = elim (Bool-cases (answers n)) [
    | inl room ↦ rw room (ap (◌∷◌ k) (flush_loop-keys (suc n) m _))
    | inr full ↦ rw full
  ]

  flush_loop-queue :
      (n : ℕ) (m : List (ℕ × E)) (s : EventStore E)
      → (flush_loop core answers n m s).1.queue ≡ s.queue ++ markers (taken answers n m)
  unfolding flush_loop taken
  flush_loop-queue n [] s = sym (append-nil s.queue)
  flush_loop-queue n ((k, e) ∷ m) s = elim (Bool-cases (answers n)) [
    | inl room ↦ rw room (
        flush_loop-queue (suc n) m _
        ∙ append_assoc s.queue (some e ∷ []) (markers (taken answers (suc n) m)))
    | inr full ↦ rw full (sym (append-nil s.queue))
  ]

  -- All else but the samples is as it was.
  abbrev Keeps : EventStore E → EventStore E → Type 0
  Keeps s t =
      (t.events ≡ s.events)
      × (t.highest_seq_id_seen ≡ s.highest_seq_id_seen)
      × (t.num_fragments_per_event ≡ s.num_fragments_per_event)
      × (t.seq_id_modulus ≡ s.seq_id_modulus)

  flush_loop-Keeps :
      (n : ℕ) (m : List (ℕ × E)) (s : EventStore E) → Keeps s (flush_loop core answers n m s).1
  unfolding flush_loop
  flush_loop-Keeps n [] s = (refl, refl, refl, refl)
  flush_loop-Keeps n ((k, e) ∷ m) s = elim (Bool-cases (answers n)) [
    | inl room ↦ rw room (flush_loop-Keeps (suc n) m _)
    | inr full ↦ rw full (refl, refl, refl, refl)
  ]

  erase_all-taken : (m : List (ℕ × E)) → erase_all (keys (taken answers 0 m)) m ≡ left answers 0 m
  erase_all-taken m =
      ap (erase_all (keys (taken answers 0 m))) (sym (taken-append-left answers 0 m))
      ∙ erase_all-keys (taken answers 0 m) (left answers 0 m)

  length-taken-left :
      (m : List (ℕ × E)) → length m ≡ length (taken answers 0 m) + length (left answers 0 m)
  length-taken-left m =
      ap length (sym (taken-append-left answers 0 m))
      ∙ length-append (taken answers 0 m) (left answers 0 m)

  done_iff :
      (m : List (ℕ × E))
      → let xs = taken answers 0 m in
        let ys = left answers 0 m in
        let done = leb (length m) (length (keys xs)) in
        ((ys ≡ []) × (done ≡ true)) ⊎ ((ys ≢ []) × (answers (length xs) ≡ false) × (done ≡ false))
  done_iff m = elim (left_refused answers 0 (length (taken answers 0 m)) m (omega arith)) [
    | inl none_left ↦ inl (
      none_left,
      ground (arith, length-taken-left m, length-keys (taken answers 0 m), ap length none_left),
    )
    | inr (some_left, refused) ↦ inr (
      some_left,
      refused,
      ground (arith, length-taken-left m, length-keys (taken answers 0 m), length-pos _ some_left),
    )
  ]

  -- A flush hands over, in the order of their keys, the events before the first one that the queue
  -- refuses: each of those was accepted, the next, if there is one, was refused, and it is kept with
  -- the others. It returns true exactly when it keeps none, and the largest sequence ID seen becomes
  -- the last one flushed in either case.
  pub flush_data_lem :
      (s : EventStore E)
      → let (t, done) = flush_data core answers s in
        (xs : List (ℕ × E)) × (ys : List (ℕ × E)) × (xs ++ ys ≡ s.events)
        × AllAccepted answers 0 xs
        × (t.queue ≡ s.queue ++ markers xs)
        × (t.events ≡ ys)
        × (t.last_flushed_seq_id ≡ s.highest_seq_id_seen)
        × (((ys ≡ []) × (done ≡ true))
            ⊎ ((ys ≢ []) × (answers (length xs) ≡ false) × (done ≡ false)))
  unfolding flush_data
  flush_data_lem s =
      let xs = taken answers 0 s.events in
      let ys = left answers 0 s.events in
      let whole = taken-append-left answers 0 s.events in
      let flushed = flush_loop-keys 0 s.events s in
      let kept = flush_loop-Keeps 0 s.events s in
      (
        xs,
        ys,
        whole,
        taken-AllAccepted answers 0 s.events,
        flush_loop-queue 0 s.events s,
        rw (flushed, kept.0, ← whole) (rw whole (erase_all-taken s.events)),
        kept.1,
        rw flushed (done_iff s.events),
      )

  emptied :
      (s : EventStore E)
      → (flush_data core answers s).1 ≡ true
      → (flush_data core answers s).0.events ≡ []
  emptied s h =
      let (xs, ys, whole, all_accepted, queued, kept, flushed, done) = flush_data_lem s in
      ground (arith, done)

  -- A flush that returns true empties a valid store, and leaves it valid.
  pub flush_data-IsValid :
      (s : EventStore E)
      → IsValid core s
      → (flush_data core answers s).1 ≡ true
      → IsValid core (flush_data core answers s).0 × ((flush_data core answers s).0.events ≡ [])
  unfolding flush_data
  flush_data-IsValid s v h =
      let kept = flush_loop-Keeps 0 s.events s in
      let empty = emptied s h in
      (
        record {
          some_expected = rw kept.2 v.some_expected;
          some_modulus = rw kept.3 v.some_modulus;
          sorted = rw empty tt;
          forming = rw empty tt;
        },
        empty,
      )

  pub flush_data-settings :
      (s : EventStore E)
      → let t = (flush_data core answers s).0 in
        (t.num_fragments_per_event ≡ s.num_fragments_per_event)
        × (t.seq_id_modulus ≡ s.seq_id_modulus)
  unfolding flush_data
  flush_data-settings s = let kept = flush_loop-Keeps 0 s.events s in (kept.2, kept.3)
