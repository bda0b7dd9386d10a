-- ===== src/Tests/Simulated.antt =====
-- A run of genToArt on two generators of simulated events.
use fnal_artdaq.Base.{
  ℕ, ◌+◌, ◌≤◌, ◌≡◌, refl, List, [], ◌∷◌, ◌++◌, map, Bool, true, false, none, some, Outcome, ok,
  fault, configuration, ◌>>=◌, length, arith, Ends, ended, append-nil, sym,
}
use fnal_artdaq.OrderedMap.{find}
use fnal_artdaq.EventStore.{EventStore}
use fnal_artdaq.GenToArt.Throttled.{FragmentGenerator, ThrottledGenerator, get_next}
use fnal_artdaq.GenToArt.Stored.{Hands, get_next-Hands}
use fnal_artdaq.GenToArt.{Numbering, Options, process_data}
use fnal_artdaq.GenToArt.Complete.{Numbered}
use fnal_artdaq.GenToArt.Running.{process_data-Numbered}
use fnal_artdaq.GenericFragmentSimulator.{
  Simulation, GenericFragmentSimulator, Settings, content_selector, new, get_next_frags,
}
use fnal_artdaq.GenericFragmentSimulator.Simulating.{OnePerId, get_next_frags-OnePerId}
use fnal_artdaq.GenericFragmentSimulator.Throttling.{
  simulator, IsUsable, simulator-Regular, new-IsUsable,
}
use fnal_artdaq.Tests.Sample.{SampleFragment, SampleEvent, sample_core, sample_fragment}

-- Fragment IDs below 2^16, sequence IDs below 2^48.
abbrev sample_numbers : Numbering sample_core
sample_numbers = record {
  sequence_id_limit = 0x1_0000_0000_0000;
  limit-le = omega arith;
  set_sequence_id = λ n f. record f { seq = n };
  sequence_id-set_sequence_id = λ n f low. refl;
  fragment_id-set_sequence_id = λ n f. refl;
}

-- The engine is a counter.
abbrev sample_simulation : Simulation sample_core ℕ
sample_simulation = record {
  sequence_id_limit = 0x1_0000_0000_0000;
  limit-le = omega arith;
  fragment_id_mod = 65536;
  make = λ n i w. record (sample_fragment n i) { filling = w };
  payload = λ f. f.filling;
  sequence_id-make = λ n i w low. refl;
  fragment_id-make = λ n i w fits. refl;
  payload-make = λ n i w. refl;
  draw_size = λ r. (r, r + 1);
  draw_word = λ r. (r, r + 1);
}

abbrev settings : ℕ → ℕ → Settings ℕ
settings selection first = record {
  content_selection = some selection;
  payload_size = some 3;
  want_random_payload_size = none;
  seeded = 40;
  fragments_per_event = some 2;
  starting_fragment_id = some first;
}

abbrev simulated : ℕ → ℕ → GenericFragmentSimulator ℕ
simulated selection first = new sample_core sample_simulation (settings selection first)

abbrev fillings :
    Outcome (Bool × List SampleFragment × GenericFragmentSimulator ℕ) → Outcome (List (List ℕ))
fillings r = r >>= λ q. ok (map (λ f. f.filling) q.1)

random_event :
    fillings (get_next_frags sample_core sample_simulation (simulated 258 7))
    ≡ ok ((40 ∷ 41 ∷ 42 ∷ []) ∷ (43 ∷ 44 ∷ 45 ∷ []) ∷ [])
unfolding get_next_frags new
random_event = refl

unknown_selection :
    get_next_frags sample_core sample_simulation (simulated 4 7) ≡ fault configuration
unfolding get_next_frags new
unknown_selection = refl

get_next_frags-OnePerId_example :
    (fs : List SampleFragment) × ((r : ℕ) × (get_next_frags sample_core sample_simulation
          (simulated 1 7)
        ≡ ok (
          true,
          fs,
          record (simulated 1 7) {
            current_event_num = (simulated 1 7).current_event_num + 1;
            engine = r;
          },
        ))
      × OnePerId sample_core sample_simulation
          (simulated 1 7)
          ((simulated 1 7).current_event_num + 1)
          (simulated 1 7).fragment_ids
          fs)
unfolding new
get_next_frags-OnePerId_example =
    get_next_frags-OnePerId sample_core sample_simulation (simulated 1 7) tt (omega arith)
      (omega arith, (omega arith, tt))

abbrev sample_options : Options
sample_options = record {
  run_number = some 6;
  queue_size = none;
  print_stats = none;
  events_to_generate = some 3;
  reset_sequence_id = none;
}

simulated-IsUsable :
    (first : ℕ) → first ≤ 100 → IsUsable sample_core sample_simulation (simulated 1 first)
simulated-IsUsable first low =
    new-IsUsable sample_core sample_simulation (settings 1 first) 2 first refl refl
      (unfold content_selector in tt) (omega arith) (omega (arith, low)) (omega (arith, low))

process_data-Numbered_example :
    (s : EventStore SampleEvent) × (process_data sample_core sample_numbers
        (simulator sample_core sample_simulation)
        (λ n. true)
        2
        4
        sample_options
        (map ok (simulated 1 7 ∷ simulated 1 10 ∷ []))
        true
        0
      ≡ ok (s, 0))
    × ((k : ℕ) → find k s.events ≡ none)
    × ((es : List SampleEvent) × (s.queue ≡ map some es ++ none ∷ [])
        × (length es ≡ 3)
        × Numbered sample_core sample_numbers
            (simulator sample_core sample_simulation)
            (λ n. true)
            4
            1
            es)
unfolding new
process_data-Numbered_example =
    process_data-Numbered sample_core sample_numbers (simulator sample_core sample_simulation)
      (λ n. true) (IsUsable sample_core sample_simulation)
      (simulator-Regular sample_core sample_simulation) sample_options (simulated 1 7)
      (simulated 1 10 ∷ []) 6 3 true 0
      (simulated-IsUsable 7 (omega arith), (simulated-IsUsable 10 (omega arith), tt)) (omega arith)
      (λ i. refl) refl refl refl (omega arith)

-- A generator with a list of what its calls give, and a log.
record Script : Type 0 where
  batches : List (List SampleFragment)
  given : List SampleFragment

abbrev play :
    List (List SampleFragment) → List SampleFragment → Outcome (Bool × List SampleFragment × Script)
play [] given = ok (false, [], record { batches = []; given = given })
play (b ∷ bs) given = ok (true, b, record { batches = bs; given = given ++ b })

abbrev scripted : FragmentGenerator Script SampleFragment
scripted = record { get_next = λ g. play g.batches g.given; fragment_ids = λ g. 1 ∷ 2 ∷ [] }

scripted_log :
    (bs : List (List SampleFragment)) (given : List SampleFragment)
    → Ends (λ r. r.2.given ≡ given ++ r.1) (play bs given)
scripted_log [] given = ended (sym (append-nil given))
scripted_log (b ∷ bs) given = ended refl

abbrev bursts : Script
bursts = record {
  batches = [] ∷ (sample_fragment 1 2 ∷ sample_fragment 2 2 ∷ sample_fragment 1 1 ∷ []) ∷ [];
  given = [];
}

abbrev first_call : ThrottledGenerator Script SampleFragment
first_call = record { generator = bursts; num_frag_ids = 2; frags = [] }

first_frags :
    (get_next sample_core scripted 2 first_call >>= λ r. ok r.1)
    ≡ ok (sample_fragment 1 1 ∷ sample_fragment 1 2 ∷ [])
unfolding get_next fnal_artdaq.OrderedMap.put find
first_frags = refl

get_next-Hands_example :
    Ends
      (λ r.
        Hands sample_core scripted
          (λ g. g.given)
          (λ g. scripted_log g.batches g.given)
          first_call
          r.1
          r.2)
      (get_next sample_core scripted 2 first_call)
get_next-Hands_example =
    get_next-Hands sample_core scripted (λ g. g.given) (λ g. scripted_log g.batches g.given) 2
      first_call (tt, tt)
