-- ===== src/RawEventQueueReader/Reading.antt =====
-- What the loop over deqTimedWait of artdaq/ArtModules/detail/RawEventQueueReader.cc gets.
use fnal_artdaq.Base.{
  ℕ, zero, suc, ◌+◌, ◌≡◌, ◌<◌, refl, ap, ◌∙◌, Bool, true, false, Option, none, some, ok, ◌⊎◌, inl,
  inr, arith,
}
use mathlib.Core.Bool.{true≢false}
use fnal_artdaq.RawEventQueueReader.{dequeue}

answered : {A : Type 0} (o : Option A) → (o ≡ none) ⊎ ((a : A) × (o ≡ some a))
answered none = inl refl
answered (some a) = inr (a, refl)

-- The m attempts from the `idx`-th on time out.
abbrev pub Silent : {E : Type 0} → (ℕ → Option (Option E)) → ℕ → ℕ → Type 0
Silent deq idx zero = Unit
Silent deq idx (suc m) = (deq idx ≡ none) × Silent deq (idx + 1) m

-- What the loop has read, from the `idx`-th attempt on: nothing, where it does not go on after a
-- time-out and its first attempt times out, or what the first attempt that does not time out gives,
-- which is its first one unless it goes on.
abbrev pub Reads : {E : Type 0} → (ℕ → Option (Option E)) → Bool → ℕ → Option (Option E) → Type 0
Reads {E} deq resume idx r =
    ((resume ≡ false) × (deq idx ≡ none) × (r ≡ none))
    ⊎ ((k : ℕ) × (p : Option E) × ((k ≡ 0) ⊎ (resume ≡ true))
        × Silent deq idx k
        × (deq (idx + k) ≡ some p)
        × (r ≡ some p))

Reads-now :
    {E : Type 0} (deq : ℕ → Option (Option E)) (resume : Bool) (idx : ℕ) (p : Option E)
    → deq idx ≡ some p
    → Reads deq resume idx (some p)
Reads-now deq resume idx p now = inr (0, p, inl refl, tt, ap deq (omega arith) ∙ now, refl)

Reads-later :
    {E : Type 0} (deq : ℕ → Option (Option E)) (idx : ℕ) (r : Option (Option E))
    → deq idx ≡ none
    → Reads deq true (idx + 1) r
    → Reads deq true idx r
Reads-later deq idx r late h = elim h [
  | inl (stops, _, _) ↦ absurd (true≢false stops)
  | inr (k, p, _, silent, reads, here) ↦
      inr (suc k, p, inr refl, (late, silent), ap deq (omega arith) ∙ reads, here)
]

-- The queue answers the n-th attempt, counted from `idx` on, so the loop ends.
pub dequeue_lem :
    {E : Type 0} (deq : ℕ → Option (Option E)) (resume : Bool) (rounds n idx : ℕ) {p : Option E}
    → deq (idx + n) ≡ some p
    → n < rounds
    → (r : Option (Option E)) × (dequeue deq resume rounds idx ≡ ok r) × Reads deq resume idx r
unfolding dequeue
dequeue_lem deq resume zero n idx e low = elim low [ ]
dequeue_lem deq false (suc rounds) n idx e low = elim (answered (deq idx)) [
  | inl late ↦ (none, ground (arith, late), inl (refl, late, refl))
  | inr (q, now) ↦ (some q, ground (arith, now), Reads-now deq false idx q now)
]
dequeue_lem deq true (suc rounds) zero idx {p} e low =
    let now : deq idx ≡ some p = ap deq (omega arith) ∙ e in
    (some p, ground (arith, now), Reads-now deq true idx p now)
dequeue_lem deq true (suc rounds) (suc n) idx e low = elim (answered (deq idx)) [
  | inl late ↦
      let (r, run, reads) =
        dequeue_lem deq true rounds n (idx + 1) (ap deq (omega arith) ∙ e) (omega (arith, low)) in
      (r, ground (arith, late, run), Reads-later deq idx r late reads)
  | inr (q, now) ↦ (some q, ground (arith, now), Reads-now deq true idx q now)
]
