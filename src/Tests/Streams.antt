-- ===== src/Tests/Streams.antt =====
-- A sender and a receiver together.
use fnal_artdaq.Base.{
  All, sym, subst, ◌⊎◌, inl, inr, ℕ, ◌+◌, ◌≤◌, ◌<◌, ◌≡◌, refl, List, [], ◌∷◌, ◌++◌, true, not, ok,
  ◌>>=◌, arith,
}
use fnal_artdaq.SHandles
use fnal_artdaq.SHandles.{SHandles, close}
use fnal_artdaq.SHandles.Closing.{CanSend, eods, all_messages, send_all, send_all-close}
use fnal_artdaq.RHandles
use fnal_artdaq.RHandles.{RHandles, any_source_active}
use fnal_artdaq.Protocol.{account_all, of_rank, IsStream}
use fnal_artdaq.Protocol.Delivery.{FromSources, account_all_lem, is_empty}
use fnal_artdaq.Protocol.Streams.{send_all-IsStream}
use fnal_artdaq.Tests.Sample.{SampleFragment, sample_core, sample_fragment}
use fnal_artdaq.Tests.Handles.{at_once, at_once-IsFair}

abbrev three : List SampleFragment
three = sample_fragment 1 0 ∷ sample_fragment 2 0 ∷ sample_fragment 3 0 ∷ []

abbrev broadcaster : SHandles SampleFragment
broadcaster = SHandles.new 2 100 2 0 true true

three-CanSend : All (CanSend sample_core 100) three
three-CanSend =
    ((ground arith, omega arith), ((ground arith, omega arith), ((ground arith, omega arith), tt)))

send_all-close_example :
    (t : SHandles SampleFragment) × (send_all sample_core at_once 1 three broadcaster
        >>= close sample_core at_once 1
      ≡ ok t)
    × (t.sent
        ≡ all_messages sample_core broadcaster three
          ++ eods sample_core (all_messages sample_core broadcaster three) 2 0)
send_all-close_example =
    send_all-close sample_core at_once 1 at_once-IsFair 2 100 2 0 true true (omega arith)
      (omega arith) (omega arith) (λ n. omega arith) three three-CanSend

send_all-IsStream_example :
    (t : SHandles SampleFragment) × (send_all sample_core at_once 1 three broadcaster
        >>= close sample_core at_once 1
      ≡ ok t)
    × IsStream sample_core (of_rank 1 t.sent)
send_all-IsStream_example =
    send_all-IsStream sample_core at_once 1 at_once-IsFair 2 100 2 0 true true (omega arith)
      (omega arith) (omega arith) (λ n. omega arith) three three-CanSend (omega arith) 1
      (omega arith) (omega arith)

-- The end-of-data fragment of rank 3 overtakes its last fragment; rank 4 sends none.
abbrev come : List (ℕ × SampleFragment)
come = (3, sample_fragment 1 0) ∷ (3, sample_core.eod_frag 2) ∷ (4, sample_core.eod_frag 0) ∷ []

abbrev to_come : List (ℕ × SampleFragment)
to_come = (3, sample_fragment 2 0) ∷ []

come-IsStream : (k : ℕ) → 3 ≤ k → k < 3 + 2 → IsStream sample_core (of_rank k (come ++ to_come))
come-IsStream k low high = elim (either k low high) [
  | inl first ↦
      subst (λ k. IsStream sample_core (of_rank k (come ++ to_come))) (sym first)
        (record {
          one_eod = refl;
          announced = (inl refl, (inr refl, (inl refl, tt)));
          bounded = omega arith;
        })
  | inr second ↦
      subst (λ k. IsStream sample_core (of_rank k (come ++ to_come))) (sym second)
        (record { one_eod = refl; announced = (inr refl, tt); bounded = omega arith })
]
  where
    either : (k : ℕ) → 3 ≤ k → k < 3 + 2 → (k ≡ 3) ⊎ (k ≡ 4)
    either k low high = ground (arith, low, high)

come-FromSources : FromSources 3 2 (come ++ to_come)
come-FromSources = (
  (omega arith, omega arith),
  ((omega arith, omega arith), ((omega arith, omega arith), ((omega arith, omega arith), tt))),
)

account_all_lem_example :
    (t : RHandles SampleFragment) × (RHandles.new 2 100 2 3 >>= account_all sample_core come ≡ ok t)
    × (any_source_active t ≡ not (is_empty to_come))
account_all_lem_example =
    account_all_lem sample_core 2 100 2 3 come to_come (omega arith) (omega arith) come-FromSources
      come-IsStream
