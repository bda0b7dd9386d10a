-- ===== src/Tests/Store.antt =====
use fnal_artdaq.Base.{
  ℕ, ◌+◌, ◌≡◌, refl, ◌≢◌, ◌⊎◌, ◌↔◌, List, [], ◌∷◌, ◌++◌, Bool, true, false, none, some, ok, arith,
  length, All,
}
use fnal_artdaq.OrderedMap.{erase, find}
use fnal_artdaq.EventStore.{
  flush_loop, erase_all, EventStore, event_key, insert, insert_or_reject, flush_data,
}
use fnal_artdaq.EventStore.Keys.{event_key_block, event_key_one}
use fnal_artdaq.EventStore.Insert.{held, IsValid, Effect, key_of, highest, insert_lem}
use fnal_artdaq.EventStore.Flush.{flush_data_lem, AllAccepted, flush_data-IsValid, markers}
use fnal_artdaq.EventStore.Stale.{insert-flush_stale}
use fnal_artdaq.EventStore.Reject.{Waited, Accepts, insert_or_reject_lem}
use fnal_artdaq.EventStore.Conservation.{
  store_weight, sum_by, insert-conserves, flush_data-conserves,
}
use fnal_artdaq.Tests.Sample.{SampleFragment, SampleEvent, sample_core, sample_fragment}

event_key_block_sample : event_key 4 8 17 ≡ 3
event_key_block_sample = event_key_block 4 8 2 0 (omega arith) (omega arith)

event_key_one_example : (event_key 1 2 5 ≡ event_key 1 2 6) ↔ (◌≡◌ {A = ℕ} 5 6)
event_key_one_example = event_key_one 2 5 6 (omega arith) (omega arith) (omega arith) (omega arith)

-- The event of one fragment of board 1, under the key of its sequence ID.
abbrev half_event : ℕ → SampleEvent
half_event seq = record { run = 7; subrun = 1; seq = seq; list = sample_fragment seq 1 ∷ [] }

-- Two events of three fragments each are under construction.
abbrev pub two_open : EventStore SampleEvent
two_open = record {
  id = 4;
  num_fragments_per_event = 3;
  max_queue_size = 50;
  run_id = 7;
  subrun_id = 1;
  events = (1, half_event 1) ∷ (2, half_event 2) ∷ [];
  queue = [];
  seq_id_modulus = 1;
  last_flushed_seq_id = 0;
  highest_seq_id_seen = 2;
  enq_check_count = 10;
  event_rate = some [];
  incomplete_events = none;
}

pub two_open-IsValid : IsValid sample_core two_open
unfolding event_key
two_open-IsValid = record {
  some_expected = omega arith;
  some_modulus = omega arith;
  sorted = omega arith;
  forming = omega arith;
}

abbrev pub second : SampleFragment
second = sample_fragment 2 5

insert_lem_example :
    (t : EventStore SampleEvent) × (insert sample_core true second two_open ≡ ok t)
    × IsValid sample_core t
    × Effect sample_core true second (key_of sample_core two_open second) two_open t
    × (t.highest_seq_id_seen ≡ highest sample_core second two_open)
insert_lem_example = insert_lem sample_core true second two_open two_open-IsValid (omega arith)

insert-conserves_example :
    (t : EventStore SampleEvent) × (lost : List SampleFragment) × (insert sample_core true second
        two_open
      ≡ ok t)
    × ((w : SampleFragment → ℕ)
        → store_weight sample_core w t + sum_by w lost
          ≡ store_weight sample_core w two_open + w second)
    × (let joined =
          held sample_core (find (key_of sample_core two_open second) two_open.events)
          ++ second ∷ [] in
        ((lost ≡ []) × ((◌≡◌ {A = Bool} true true) ⊎ (length joined ≢ 3)))
        ⊎ ((true ≡ false) × (length joined ≡ 3) × (lost ≡ joined)))
insert-conserves_example =
    insert-conserves sample_core true second two_open (omega arith) (omega arith)

-- The queue takes one event and no more.
abbrev one_place : ℕ → Bool
one_place ℕ.zero = true
one_place _ = false

flush_data_lem_example :
    let (t, done) = flush_data sample_core one_place two_open in
    (xs : List (ℕ × SampleEvent)) × (ys : List (ℕ × SampleEvent)) × (xs ++ ys ≡ two_open.events)
    × AllAccepted one_place 0 xs
    × (t.queue ≡ [] ++ markers xs)
    × (t.events ≡ ys)
    × (t.last_flushed_seq_id ≡ 2)
    × (((ys ≡ []) × (done ≡ true)) ⊎ ((ys ≢ []) × (one_place (length xs) ≡ false) × (done ≡ false)))
flush_data_lem_example = flush_data_lem sample_core one_place two_open

flush_data-conserves_example :
    store_weight sample_core (λ f. f.seq) (flush_data sample_core one_place two_open).0 ≡ 3
flush_data-conserves_example = flush_data-conserves sample_core one_place two_open (λ f. f.seq)

all_flushed : (flush_data sample_core (λ n. true) two_open).1 ≡ true
unfolding flush_data flush_loop
all_flushed = refl

first_left : (flush_data sample_core one_place two_open).0.events ≡ (2, half_event 2) ∷ []
unfolding flush_data flush_loop erase_all erase
first_left = refl

flush_data-IsValid_example :
    IsValid sample_core (flush_data sample_core (λ n. true) two_open).0
    × ((flush_data sample_core (λ n. true) two_open).0.events ≡ [])
flush_data-IsValid_example =
    flush_data-IsValid sample_core (λ n. true) two_open two_open-IsValid all_flushed

-- Sequence ID 4 is filed with sequence ID 2, which the flush left behind.
insert-flush_stale_example :
    (u : EventStore SampleEvent) × (grown : SampleEvent) × (insert sample_core true
        (sample_fragment 4 5)
        (flush_data sample_core one_place two_open).0
      ≡ ok u)
    × (find 2 u.events ≡ some grown)
    × (grown.list ≡ sample_fragment 2 1 ∷ sample_fragment 4 5 ∷ [])
    × All (λ g. g.seq ≢ 4) (sample_fragment 2 1 ∷ [])
insert-flush_stale_example =
    insert-flush_stale sample_core true one_place two_open 2 (half_event 2) [] (sample_fragment 4 5)
      two_open-IsValid refl (omega arith) first_left (omega arith) refl (omega arith) (omega arith)
      (omega arith)

insert_or_reject_lem_example :
    let r = insert_or_reject sample_core (λ n. true) true second two_open in
    ((true ≡ false) × Accepts sample_core true second two_open r)
    ⊎ ((last : ℕ) × (◌≡◌ {A = Bool} true true)
        × Waited (λ n. true) 10 1 last
        × (((true ≡ true) × (r ≡ ok (two_open, some second)))
            ⊎ ((true ≡ false) × Accepts sample_core true second two_open r)))
insert_or_reject_lem_example = insert_or_reject_lem sample_core (λ n. true) true second two_open
