-- ===== src/Tests/Counters.antt =====
use fnal_artdaq.Base.{
  ◌+◌, ◌-◌, ◌≤◌, ◌<◌, ◌≡◌, ◌⊎◌, [], ◌∷◌, ok, fault, logic_error, out_of_bounds, arith,
}
use fnal_artdaq.FragCounter.{FragCounter, size_t_mod, int_mod, n_slots, inc_slot_by, count}
use fnal_artdaq.FragCounter.Counts.{Increments, count_lem, inc_slot_by_lem}

abbrev two_slots : FragCounter
two_slots = record { offset = 3; receipts = 7 ∷ 0x7fff_ffff ∷ [] }

count_lem_example : count two_slots ≡ 0x8000_0006 + (size_t_mod - int_mod)
count_lem_example = count_lem two_slots (omega arith)

inc_slot_by_lem_example :
    (4 < two_slots.offset × (inc_slot_by two_slots 4 2 ≡ fault logic_error))
    ⊎ ((two_slots.offset + n_slots two_slots ≤ 4)
        × (inc_slot_by two_slots 4 2 ≡ fault out_of_bounds))
    ⊎ ((d : FragCounter) × (inc_slot_by two_slots 4 2 ≡ ok d) × Increments two_slots 4 2 d)
inc_slot_by_lem_example = inc_slot_by_lem two_slots 4 2
