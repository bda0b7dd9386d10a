-- ===== src/FragCounter/Counts.antt =====
-- What the counters promise: each increment is seen in its own slot only, and the total.
use fnal_artdaq.Base.{
  ℕ, ◌+◌, ap, ◌-◌, ◌%◌, ◌≤◌, ◌<◌, ◌≡◌, refl, ◌∙◌, inl, inr, List, [], ◌∷◌, ok, fault, logic_error,
  out_of_bounds, arith, set, length, get_elem?-lt, get_elem?-set_self, get_elem?-set_ne, ◌>>=◌,
  if◌then◌else◌, ltb, dec_lt, ◌==◌, ◌⊎◌, get_elem?-ge, length-set,
}
use fnal_artdaq.FragCounter.{
  FragCounter, size_t_mod, int_mod, inc_slot, inc_slot_by, n_slots, slot_count, through_int,
  accumulate, count,
}

abbrev pub sum : List ℕ → ℕ
sum [] = 0
sum (x ∷ xs) = x + sum xs

through_int-add : (a x : ℕ) → through_int ((through_int a + x) % size_t_mod) ≡ through_int (a + x)
unfolding through_int
through_int-add a x = ground arith

accumulate-sum : (a : ℕ) (xs : List ℕ) → accumulate (through_int a) xs ≡ through_int (a + sum xs)
unfolding accumulate
accumulate-sum a [] = ap through_int (omega arith)
accumulate-sum a (x ∷ xs) =
    rw (through_int-add a x) (accumulate-sum (a + x) xs ∙ ap through_int (omega arith))

count-sum : (c : FragCounter) → count c ≡ through_int (sum c.receipts)
unfolding count through_int
count-sum c = accumulate-sum 0 c.receipts ∙ ap through_int (omega arith)

-- While the total of all slots is below 2^32, `count()` is that total if it is below 2^31, and
-- the total plus 2^64 - 2^32 from there on: the accumulator is an `int`.
pub count_lem :
    (c : FragCounter)
    → sum c.receipts < int_mod
    → count c ≡ (
        if ltb (sum c.receipts) 0x8000_0000
        then sum c.receipts
        else sum c.receipts + (size_t_mod - int_mod))
unfolding through_int
count_lem c h = count-sum c ∙ ground arith

-- What a successful increment does: the slot's count grows modulo 2^64, all others are as before.
pub record Increments (c : FragCounter) (slot inc : ℕ) (d : FragCounter) : Type 0 where
  pub same_offset : d.offset ≡ c.offset
  pub same_size : n_slots d ≡ n_slots c
  pub reads :
      (k : ℕ)
      → slot_count d k ≡ (
          if k == slot
          then slot_count c slot >>= (λ n. ok ((n + inc) % size_t_mod))
          else slot_count c k)

in_range-Increments :
    (c : FragCounter) (slot inc : ℕ)
    → c.offset ≤ slot
    → slot < c.offset + n_slots c
    → (d : FragCounter) × (inc_slot_by c slot inc ≡ ok d) × Increments c slot inc d
unfolding inc_slot_by n_slots slot_count
in_range-Increments c slot inc low high =
    let (old, e) = get_elem?-lt c.receipts (slot - c.offset) (omega arith) in
    let v : ℕ = (old + inc) % size_t_mod in
    let cs : ℕ = slot - c.offset in
    (
      record c { receipts = set c.receipts cs v },
      ground (arith, e),
      record {
        same_offset = refl;
        same_size = length-set c.receipts cs v;
        reads = λ k. ground (
          arith,
          e,
          get_elem?-set_self c.receipts cs v,
          get_elem?-set_ne c.receipts cs (k - c.offset) v,
        );
      },
    )

-- `incSlot` on every slot: below the offset it throws, past the last slot it indexes out of
-- bounds, and in between it succeeds and has the effect that `Increments` states.
pub inc_slot_by_lem :
    (c : FragCounter) (slot inc : ℕ)
    → (slot < c.offset × (inc_slot_by c slot inc ≡ fault logic_error))
      ⊎ ((c.offset + n_slots c ≤ slot) × (inc_slot_by c slot inc ≡ fault out_of_bounds))
      ⊎ ((d : FragCounter) × (inc_slot_by c slot inc ≡ ok d) × Increments c slot inc d)
unfolding inc_slot_by n_slots
inc_slot_by_lem c slot inc = elim (dec_lt slot c.offset) [
  | yes low ↦ inl (low, ground arith)
  | no low ↦ elim (dec_lt slot (c.offset + length c.receipts)) [
    | yes high ↦ inr (inr (in_range-Increments c slot inc (omega arith) high))
    | no high ↦ inr (inl (omega arith, ground (arith, get_elem?-ge c.receipts (slot - c.offset))))
  ]
]

-- `incSlot(slot)` is `incSlot(slot, 1)`.
pub inc_slot-inc_slot_by : (c : FragCounter) (slot : ℕ) → inc_slot c slot ≡ inc_slot_by c slot 1
unfolding inc_slot inc_slot_by
inc_slot-inc_slot_by c slot = refl

-- A slot that can be read can be incremented.
pub slot-Increments :
    (c : FragCounter) (slot n : ℕ)
    → slot_count c slot ≡ ok n
    → (d : FragCounter) × (inc_slot c slot ≡ ok d) × Increments c slot 1 d
unfolding slot_count n_slots
slot-Increments c slot n e = elim (inc_slot_by_lem c slot 1) [
  | inl (low, _) ↦ absurd (ground (arith, e))
  | inr (inl (high, _)) ↦ absurd (ground (arith, e, get_elem?-ge c.receipts (slot - c.offset)))
  | inr (inr (d, run, i)) ↦ (d, inc_slot-inc_slot_by c slot ∙ run, i)
]
