-- ===== src/Tests/Readers.antt =====
use fnal_artdaq.Base.{
  ℕ, zero, suc, ◌%◌, ◌+◌, ◌≡◌, refl, List, [], ◌∷◌, ◌++◌, Bool, true, false, Option, none, some, ok,
  arith, length, All,
}
use fnal_artdaq.FragCounter.{size_t_mod}
use fnal_artdaq.Generator
use fnal_artdaq.Generator.{Generator, Effects, Virtuals, pos}
use fnal_artdaq.FragCounter.{inc_slot, slot_count, computed_slot}
use fnal_artdaq.FragCounter
use fnal_artdaq.SHandles
use fnal_artdaq.SHandles.{
  send_fragment, calc_dest, send_counted, send_frag_to, find_available, close, send_eods,
  send_eod_frag, wait_all,
}
use fnal_artdaq.SHandles.Closing.{CanSend, all_messages, eods}
use fnal_artdaq.BoardReader.{BoardReaderCore, process_fragments, begin, run, end, send_frags}
use fnal_artdaq.BoardReader.Sending.{yields, process_fragments_lem, sender_of, last_seq_id}
use fnal_artdaq.Tests.Sample.{SampleFragment, sample_core, sample_fragment}
use fnal_artdaq.Tests.Handles.{at_once, at_once-IsFair}

abbrev kept : Generator ℕ → ℕ → Effects ℕ
kept g n = record { new_derived = n; new_ev_counter = g.ev_counter; new_exception = g.exception }

-- As many calls of `getNext` yield one fragment each as the state says.
abbrev answer :
    ℕ → List SampleFragment → Generator ℕ → Option Bool × List SampleFragment × Effects ℕ
answer zero output g = (some false, output, kept g 0)
answer (suc n) output g = (some true, output ++ sample_fragment (n + 1) 4 ∷ [], kept g n)

abbrev counter : Virtuals ℕ SampleFragment
counter = record {
  get_next_ = λ output g. answer g.derived output g;
  start = λ g. ok (kept g 3);
  stop_no_mutex = λ g. ok (kept g (g.derived));
  stop = λ g. ok (kept g 0);
  pause_no_mutex = λ g. ok (kept g (g.derived));
  pause = λ g. ok (kept g 0);
  resume = λ g. ok (kept g 2);
}

abbrev reader : BoardReaderCore ℕ SampleFragment
reader = record {
  generator = some (Generator.new 2);
  run_id = 7;
  max_fragment_size_words = 100;
  mpi_buffer_count = 2;
  first_evb_rank = 5;
  evb_count = 3;
  rt_priority = pos 0;
  skip_seq_id_test = false;
  synchronous_sends = true;
  sender = none;
  fragment_count = 0;
  prev_seq_id = 0;
  stop_requested = false;
  pause_requested = false;
}

abbrev two : List SampleFragment
two = sample_fragment 2 4 ∷ sample_fragment 1 4 ∷ []

two-CanSend : All (CanSend sample_core 100) two
two-CanSend = (((λ e. omega (arith, e)), omega arith), (((λ e. omega (arith, e)), omega arith), tt))

two-yields : yields counter 3 (Generator.new 2) ≡ some (two, Generator.new 0)
unfolding yields Generator.get_next Generator.new
two-yields = refl

process_fragments_lem_example :
    process_fragments sample_core at_once 1 counter 3 reader
    ≡ ok (
      record reader {
        generator = some (Generator.new 0);
        sender = none;
        fragment_count = (0 + length two) % size_t_mod;
        prev_seq_id = last_seq_id sample_core 0 two;
      },
      all_messages sample_core (sender_of reader) two
          ++ eods sample_core (all_messages sample_core (sender_of reader) two) 3 5,
    )
process_fragments_lem_example =
    process_fragments_lem sample_core at_once 1 counter at_once-IsFair 3 (Generator.new 2)
      (Generator.new 0) two reader refl two-yields (omega arith) (omega arith) (omega arith)
      (omega arith) (λ n. omega arith) two-CanSend

-- The two fragments go to the ranks 2 % 3 + 5 and 1 % 3 + 5.
process_fragments_run :
    process_fragments sample_core at_once 1 counter 3 reader
    ≡ ok (
      record reader { generator = some (Generator.new 0); fragment_count = 2; prev_seq_id = 1 },
      (7, sample_fragment 2 4)
          ∷ (6, sample_fragment 1 4)
          ∷ (5, sample_core.eod_frag 0)
          ∷ (6, sample_core.eod_frag 1)
          ∷ (7, sample_core.eod_frag 1)
          ∷ [],
    )
unfolding process_fragments begin run end send_frags Generator.get_next Generator.new SHandles.new
    send_fragment calc_dest send_counted send_frag_to find_available close send_eods send_eod_frag
    wait_all FragCounter.new inc_slot slot_count computed_slot
process_fragments_run = refl
