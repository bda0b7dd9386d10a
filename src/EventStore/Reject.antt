-- ===== src/EventStore/Reject.antt =====
-- The second `EventStore::insert`, which hands a fragment back when the queue stays full.
use fnal_artdaq.Base.{
  ℕ, zero, suc, ◌+◌, ◌<◌, ◌≡◌, refl, ◌⊎◌, inl, inr, Bool, true, false, Option, none, some, Outcome,
  ok, ◌>>=◌, arith, Bool-cases,
}
use fnal_artdaq.ArtdaqCore.{ArtdaqCore}
use fnal_artdaq.EventStore.{EventStore, wait_while_full, insert, insert_or_reject}

-- The queue is full at each of the m polls from the n-th on.
abbrev pub FullFrom : (ℕ → Bool) → ℕ → ℕ → Type 0
FullFrom polls n zero = Unit
FullFrom polls n (suc m) = (polls n ≡ true) × FullFrom polls (n + 1) m

-- A loop of at most `rounds` polls, from the n-th on: the first m find the queue full, and either
-- all rounds are used up, or the next poll finds room and is the last of the loop. The number of the
-- poll that follows the loop is `last`.
abbrev pub Waited : (ℕ → Bool) → ℕ → ℕ → ℕ → Type 0
Waited polls rounds n last =
    (m : ℕ) × FullFrom polls n m
    × (((m ≡ rounds) × (last ≡ n + m))
        ⊎ ((m < rounds) × (polls (n + m) ≡ false) × (last ≡ n + m + 1)))

Waited-more :
    (polls : ℕ → Bool) (left n last : ℕ)
    → polls n ≡ true
    → Waited polls left (n + 1) last
    → Waited polls (suc left) n last
Waited-more polls left n last full (m, all, why) =
    let moved : n + 1 + m ≡ n + suc m = omega arith in
    (
      suc m,
      (full, all),
      elim why [
        | inl (used, ends) ↦ inl (omega arith, omega arith)
        | inr (less, room, ends) ↦ inr (omega arith, rw (← moved) room, omega arith)
      ],
    )

wait_while_full_lem :
    (polls : ℕ → Bool) (left n : ℕ) → Waited polls left n (wait_while_full polls left n)
unfolding wait_while_full
wait_while_full_lem polls zero n = (0, tt, inl (refl, omega arith))
wait_while_full_lem polls (suc left) n = elim (Bool-cases (polls n)) [
  | inl full ↦ rw full (Waited-more polls left n _ full (wait_while_full_lem polls left (n + 1)))
  | inr room ↦
      let same : n + 0 ≡ n = omega arith in
      rw room (0, tt, inr (omega arith, rw same room, omega arith))
]

module _ {F E : Type 0} (core : ArtdaqCore F E) where
  abbrev pub Accepts : Bool → F → EventStore E → Outcome (EventStore E × Option F) → Type 0
  Accepts accepted f s r = r ≡ (insert core accepted f s >>= λ t. ok (t, none))

  -- If the queue is not full at the first poll, the fragment is inserted as by the other `insert`.
  -- Otherwise the queue is polled in a loop that ends after the first poll that finds room, or when
  -- `enq_check_count` polls have found the queue full, and once more: the fragment is handed back, and the store is as it was, if that last poll finds the
  -- queue full, and it is inserted if not.
  pub insert_or_reject_lem :
      (polls : ℕ → Bool) (accepted : Bool) (f : F) (s : EventStore E)
      → let r = insert_or_reject core polls accepted f s in
        ((polls 0 ≡ false) × Accepts accepted f s r)
        ⊎ ((last : ℕ) × (polls 0 ≡ true)
            × Waited polls s.enq_check_count 1 last
            × (((polls last ≡ true) × (r ≡ ok (s, some f)))
                ⊎ ((polls last ≡ false) × Accepts accepted f s r)))
  unfolding insert_or_reject
  insert_or_reject_lem polls accepted f s = elim (Bool-cases (polls 0)) [
    | inr room ↦ inl (room, rw room)
    | inl full ↦
        let last = wait_while_full polls s.enq_check_count 1 in
        inr (
          last,
          full,
          wait_while_full_lem polls s.enq_check_count 1,
          elim (Bool-cases (polls last)) [
            | inl still ↦ inl (still, rw (full, still))
            | inr room ↦ inr (room, rw (full, room))
          ],
        )
  ]
