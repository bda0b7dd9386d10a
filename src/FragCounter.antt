-- ===== src/FragCounter.antt =====
-- artdaq/DAQrate/detail/FragCounter.hh and FragCounter.cc: one count for each of a range of ranks.
-- The slot locks make each operation atomic, so an operation is one step on the record.
pub mod Counts
use fnal_artdaq.Base.{
  ℕ, ◌+◌, ◌-◌, ◌%◌, ◌≡◌, refl, List, [], ◌∷◌, Outcome, ok, logic_error, out_of_bounds, or_fault,
  require, ◌>>=◌, ◌>>◌, leb, ltb, if◌then◌else◌, get_elem?, set, replicate, length,
}

abbrev pub size_t_mod : ℕ
size_t_mod = 0x1_0000_0000_0000_0000

abbrev pub int_mod : ℕ
int_mod = 0x1_0000_0000

pub record FragCounter : Type 0 where
  pub offset : ℕ
  pub receipts : List ℕ

unfoldable pub new : ℕ → ℕ → FragCounter
new n_slots offset = record { offset = offset; receipts = replicate n_slots 0 }

-- `computedSlot_`
unfoldable pub computed_slot : FragCounter → ℕ → Outcome ℕ
computed_slot c slot = do require (leb c.offset slot) logic_error; ok (slot - c.offset)

-- `incSlot(slot, inc)`; the lock vector has the length of `receipts`, so it is indexed first, with
-- the same bound.
unfoldable pub inc_slot_by : FragCounter → ℕ → ℕ → Outcome FragCounter
unfolding computed_slot
inc_slot_by c slot inc = do
  cs ← computed_slot c slot
  old ← or_fault (get_elem? c.receipts cs) out_of_bounds
  ok (record c { receipts = set c.receipts cs ((old + inc) % size_t_mod) })

-- `incSlot(slot)`
unfoldable pub inc_slot : FragCounter → ℕ → Outcome FragCounter
unfolding computed_slot
inc_slot c slot = do
  cs ← computed_slot c slot
  old ← or_fault (get_elem? c.receipts cs) out_of_bounds
  ok (record c { receipts = set c.receipts cs ((old + 1) % size_t_mod) })

unfoldable pub n_slots : FragCounter → ℕ
n_slots c = length c.receipts

unfoldable pub slot_count : FragCounter → ℕ → Outcome ℕ
unfolding computed_slot
slot_count c slot = do cs ← computed_slot c slot; or_fault (get_elem? c.receipts cs) out_of_bounds

-- A `size_t` converted to `int` and back: the low 32 bits, with the sign extended.
unfoldable pub through_int : ℕ → ℕ
through_int n = let r = n % int_mod in if ltb r 0x8000_0000 then r else r + (size_t_mod - int_mod)

-- `std::accumulate` with the initial value `0`, whose type `int` is that of the accumulator.
unfoldable pub accumulate : ℕ → List ℕ → ℕ
unfolding through_int
accumulate acc [] = acc
accumulate acc (x ∷ xs) = accumulate (through_int ((acc + x) % size_t_mod)) xs

unfoldable pub count : FragCounter → ℕ
unfolding accumulate
count c = accumulate 0 c.receipts
