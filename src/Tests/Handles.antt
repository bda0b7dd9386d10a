-- ===== src/Tests/Handles.antt =====
-- Senders and receivers at concrete inputs.
use fnal_artdaq.Base.{
  ◌≢◌, configuration, inr, ◌⊎◌, ℕ, ◌+◌, ◌%◌, ◌≤◌, ◌<◌, ◌≡◌, refl, [], ◌∷◌, ◌++◌, Bool, true, false,
  Option, some, ok, fault, logic_error, unimplemented, ◌==◌, arith, length, replicate,
}
use fnal_artdaq.FragCounter.{slot_count}
use fnal_artdaq.SHandles
use fnal_artdaq.SHandles.{SHandles, calc_dest, send_fragment, close}
use fnal_artdaq.SHandles.Sending.{IsFair}
use fnal_artdaq.SHandles.Counting.{IsOpen, Sends, calc_dest_lem}
use fnal_artdaq.SHandles.Lifetime.{messages, new-IsOpen, send_fragment_lem}
use fnal_artdaq.SHandles.Closing.{eods, close_lem}
use fnal_artdaq.RHandles.{
  Arrival, RHandles, Status, sending, done, account, next_source, any_source_active,
}
use fnal_artdaq.RHandles.Accounts.{Source, SameOthers}
use fnal_artdaq.RHandles.Accounting.{is_eod, Accepted, account_lem}
use fnal_artdaq.RHandles.Next.{LastPosted, Found, rank_of, next_source_lem}
use fnal_artdaq.RHandles
use fnal_artdaq.RHandles.Serving.{IsServed}
use fnal_artdaq.RHandles.Taking.{Arrives, take_lem}
use fnal_artdaq.RHandles.Opening.{new-IsServed}
use fnal_artdaq.RHandles.Receive.{take, from}
use fnal_artdaq.Tests.Sample.{SampleFragment, sample_core, sample_fragment}

-- MPI_Test finds every request complete.
abbrev pub at_once : ℕ → Bool
at_once n = true

pub at_once-IsFair : IsFair at_once 1
at_once-IsFair n = (0, omega arith, refl)

abbrev sender : SHandles SampleFragment
sender = SHandles.new 2 100 3 5 false false

sender-IsOpen : IsOpen sender
sender-IsOpen = new-IsOpen 2 100 3 5 false false (omega arith) (omega arith) (omega arith)

calc_dest_lem_example :
    (d : ℕ) × (e : ℕ) × (calc_dest sender 7 ≡ ok d)
    × (calc_dest sender 10 ≡ ok e)
    × (sender.dest_start ≤ d)
    × (d < sender.dest_start + sender.dest_count)
    × ((d == e) ≡ (7 % sender.dest_count == 10 % sender.dest_count))
calc_dest_lem_example = calc_dest_lem sender sender-IsOpen 7 10

send_fragment_lem_example :
    ((sample_core.type_code (sample_fragment 7 1) ≡ sample_core.end_of_data)
      × (send_fragment sample_core at_once 1 (sample_fragment 7 1) sender ≡ fault logic_error))
    ⊎ ((sample_core.type_code (sample_fragment 7 1) ≢ sample_core.end_of_data)
        × (sender.max_payload_size < sample_core.data_size (sample_fragment 7 1))
        × (send_fragment sample_core at_once 1 (sample_fragment 7 1) sender ≡ fault unimplemented))
    ⊎ ((dest : ℕ) × (t : SHandles SampleFragment) × (sample_core.type_code (sample_fragment 7 1)
          ≢ sample_core.end_of_data)
        × (sample_core.data_size (sample_fragment 7 1) ≤ sender.max_payload_size)
        × (send_fragment sample_core at_once 1 (sample_fragment 7 1) sender ≡ ok (dest, t))
        × Sends (messages sample_core sender (sample_fragment 7 1)) sender t)
send_fragment_lem_example =
    send_fragment_lem sample_core at_once 1 at_once-IsFair (sample_fragment 7 1) sender
      sender-IsOpen

close_lem_sample :
    (t : SHandles SampleFragment) × (close sample_core at_once 1 sender ≡ ok t)
    × (t.sent ≡ sender.sent ++ eods sample_core sender.sent sender.dest_count sender.dest_start)
    × (t.reqs ≡ replicate t.buffer_count true)
unfolding SHandles.new
close_lem_sample =
    close_lem sample_core at_once 1 at_once-IsFair sender sender-IsOpen (λ n. omega arith)

-- Two sources, of which the second was posted last; the first has announced one fragment.
abbrev receiver : RHandles SampleFragment
receiver = record {
  buffer_count = 2;
  max_payload_size = 100;
  src_count = 2;
  src_start = 3;
  recv_frag_count = record { offset = 3; receipts = 0 ∷ 4 ∷ [] };
  src_status = RHandles.pending ∷ sending ∷ [];
  expected_count = 1 ∷ 0 ∷ [];
  reqs = true ∷ false ∷ [];
  req_sources = some 3 ∷ some 4 ∷ [];
  last_source_posted = some 4;
  ready = [];
}

receiver-Source : Source receiver 3 RHandles.pending 1 0
unfolding RHandles.index_from_source slot_count
receiver-Source = record {
  low = omega arith;
  status_is = refl;
  expected_is = refl;
  count_is = refl;
}

account_lem_sample :
    ((is_eod sample_core (sample_fragment 7 1) ≡ false)
      × (RHandles.pending ≡ done)
      × (account sample_core 3 (sample_fragment 7 1) receiver ≡ fault logic_error))
    ⊎ ((t : RHandles SampleFragment) × (account sample_core 3 (sample_fragment 7 1) receiver ≡ ok t)
        × Accepted t 3 (is_eod sample_core (sample_fragment 7 1)) 0 RHandles.pending 1 0
        × SameOthers 3 receiver t)
account_lem_sample =
    account_lem sample_core 3 (sample_fragment 7 1) receiver RHandles.pending 1 0 receiver-Source

receiver-LastPosted : LastPosted receiver 1
receiver-LastPosted = record { sized = refl; posted = refl; inside = omega arith }

next_source_lem_example :
    (next : Option ℕ) × (next_source receiver ≡ ok (rank_of receiver next))
    × Found receiver.src_status ((1 + 1) % length receiver.src_status) 1 next
next_source_lem_example = next_source_lem receiver 1 receiver-LastPosted

receiver-IsServed : IsServed receiver
receiver-IsServed = record {
  last = 1;
  last_posted = receiver-LastPosted;
  served = inr (1, record { status = sending; status_is = refl; active = refl; posted = refl });
}

abbrev arrival : Arrival SampleFragment
arrival = record { which = some 0; source = 3; fragment = sample_fragment 7 1 }

arrival-Arrives : Arrives arrival receiver
arrival-Arrives = record {
  buffer = 0;
  which_is = refl;
  null = refl;
  mine = refl;
  low = omega arith;
  high = omega arith;
  buffers = refl;
}

take_lem_example :
    ((is_eod sample_core arrival.fragment ≡ false)
      × (RHandles.pending ≡ done)
      × (take sample_core (λ k. true) arrival receiver ≡ fault logic_error))
    ⊎ ((t : RHandles SampleFragment) × (take sample_core (λ k. true) arrival receiver
          ≡ ok (from arrival.source arrival.fragment, t))
        × IsServed t)
unfolding any_source_active
take_lem_example =
    take_lem sample_core (λ k. true) arrival receiver RHandles.pending 1 0 receiver-IsServed refl
      arrival-Arrives receiver-Source (λ k. refl)

new-IsServed_example :
    ((◌≡◌ {A = ℕ} 2 0) × (RHandles.new {F = SampleFragment} 2 100 3 5 ≡ fault configuration))
    ⊎ ((◌≡◌ {A = ℕ} 3 0) × (RHandles.new {F = SampleFragment} 2 100 3 5 ≡ fault configuration))
    ⊎ ((s : RHandles SampleFragment) × (RHandles.new 2 100 3 5 ≡ ok s) × IsServed s)
new-IsServed_example = new-IsServed 2 100 3 5
