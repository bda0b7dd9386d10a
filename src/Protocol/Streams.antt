-- ===== src/Protocol/Streams.antt =====
-- What SHandles sends to a destination is a stream as RHandles expects it of a source.
use fnal_artdaq.Base.{
  All-append, ℕ_discrete, ◌⊎◌, inl, inr, ℕ, zero, suc, ◌+◌, ◌%◌, ◌≤◌, ◌<◌, ◌≡◌, refl, sym, ap, ◌∙◌,
  List, [], ◌∷◌, ◌>>=◌, ◌++◌, Bool, true, false, ok, ◌==◌, if◌then◌else◌, arith, Bool-cases, length,
  subst, All,
}
use fnal_artdaq.ArtdaqCore.{ArtdaqCore}
use fnal_artdaq.FragCounter.{size_t_mod}
use fnal_artdaq.SHandles
use fnal_artdaq.SHandles.{SHandles, close}
use fnal_artdaq.SHandles.Sending.{IsFair}
use fnal_artdaq.SHandles.Counting.{sent_to, to_each}
use fnal_artdaq.SHandles.Lifetime.{messages}
use fnal_artdaq.SHandles.Closing.{all_messages, CanSend, EodsFit, send_all, send_all-close}
use fnal_artdaq.SHandles.Closing as Closing
use fnal_artdaq.RHandles.Accounting.{is_eod}
use fnal_artdaq.Protocol.{of_rank, eods, data_count, Announces, IsStream}

of_rank-append :
    {F : Type 0} (k : ℕ) (l m : List (ℕ × F)) → of_rank k (l ++ m) ≡ of_rank k l ++ of_rank k m
of_rank-append k [] m = refl
of_rank-append k ((rank, f) ∷ l) m = elim (Bool-cases (rank == k)) [
  | inl e ↦ rw e (ap (λ x. f ∷ x) (of_rank-append k l m))
  | inr e ↦ rw e (of_rank-append k l m)
]

length-of_rank : {F : Type 0} (k : ℕ) (l : List (ℕ × F)) → length (of_rank k l) ≡ sent_to k l
length-of_rank k [] = refl
length-of_rank k ((rank, f) ∷ l) = elim (Bool-cases (rank == k)) [
  | inl e ↦ rw e (let h = length-of_rank k l in omega (arith, h))
  | inr e ↦ rw e (let h = length-of_rank k l in omega (arith, h))
]

-- A rank gets a fragment at most once in a call.
sent_to-to_each :
    {F : Type 0} (k : ℕ) (f : F) (n dest : ℕ)
    → (sent_to k (to_each f n dest) ≤ 1) × ((dest ≤ k) ⊎ (sent_to k (to_each f n dest) ≡ 0))
sent_to-to_each k f zero dest = (omega arith, inr refl)
sent_to-to_each k f (suc n) dest = let h = sent_to-to_each k f n (dest + 1) in ground (arith, h)

sent_to-append :
    {F : Type 0} (k : ℕ) (l m : List (ℕ × F)) → sent_to k (l ++ m) ≡ sent_to k l + sent_to k m
sent_to-append k [] m = omega arith
sent_to-append k ((rank, f) ∷ l) m = let h = sent_to-append k l m in omega (arith, h)

sent_to-either :
    {F : Type 0} (k : ℕ) (f : F) (all : Bool) (n start dest : ℕ)
    → sent_to k (if all then to_each f n start else (dest, f) ∷ []) ≤ 1
sent_to-either k f true n start dest = (sent_to-to_each k f n start).0
sent_to-either k f false n start dest = ground arith

module _ {F E : Type 0} (core : ArtdaqCore F E) where
  sent_to-le :
      (k : ℕ) (s : SHandles F) (fs : List F) → sent_to k (all_messages core s fs) ≤ length fs
  sent_to-le k s [] = omega arith
  sent_to-le k s (f ∷ fs) =
      let a = sent_to-append k (messages core s f) (all_messages core s fs) in
      let b =
        sent_to-either k f s.broadcast_sends s.dest_count s.dest_start
          (core.sequence_id f % s.dest_count + s.dest_start) in
      let c = sent_to-le k s fs in omega (arith, a, b, c)

  of_rank-eods_below :
      (l : List (ℕ × F)) (k n dest : ℕ) → k < dest → of_rank k (Closing.eods core l n dest) ≡ []
  of_rank-eods_below l k zero dest low = refl
  of_rank-eods_below l k (suc n) dest low =
      let e : (dest == k) ≡ false = ground (arith, low) in
      rw e (of_rank-eods_below l k n (dest + 1) (omega (arith, low)))

  of_rank-eods :
      (l : List (ℕ × F)) (k n dest : ℕ)
      → dest ≤ k
      → k < dest + n
      → of_rank k (Closing.eods core l n dest) ≡ core.eod_frag (sent_to k l % size_t_mod) ∷ []
  of_rank-eods l k zero dest low high = absurd (omega (arith, low, high))
  of_rank-eods l k (suc n) dest low high = elim (ℕ_discrete dest k) [
    | yes here ↦
        let e : (dest == k) ≡ true = ground (arith, here) in
        let tail = of_rank-eods_below l k n (dest + 1) (omega (arith, here)) in
        rw (e, tail) (ap (λ d. core.eod_frag (sent_to d l % size_t_mod) ∷ []) here)
    | no ne ↦
        let e : (dest == k) ≡ false = ground (arith, ne) in
        rw e (of_rank-eods l k n (dest + 1) (omega (arith, low, ne)) (omega (arith, high)))
  ]

  -- Fragments of data, followed by one that announces their number.
  data_stream :
      (fs : List F) (eod : F) (total : ℕ)
      → All (λ f. is_eod core f ≡ false) fs
      → is_eod core eod ≡ true
      → core.first_word eod ≡ total
      → (eods core (fs ++ eod ∷ []) ≡ 1)
        × (data_count core (fs ++ eod ∷ []) ≡ length fs)
        × All (Announces core total) (fs ++ eod ∷ [])
  data_stream [] eod total regular last word =
      (rw last (omega arith), rw last (omega arith), (inr word, tt))
  data_stream (f ∷ fs) eod total regular last word =
      let (a, b, c) = data_stream fs eod total regular.1 last word in
      let e = regular.0 in (rw e (omega (arith, a)), rw e (omega (arith, b)), (inl e, c))

  -- What goes to a rank is data if all is.
  of_rank-data :
      (k : ℕ) (l : List (ℕ × F))
      → All (λ m. is_eod core m.1 ≡ false) l
      → All (λ f. is_eod core f ≡ false) (of_rank k l)
  of_rank-data k [] all = tt
  of_rank-data k ((rank, f) ∷ l) all = elim (Bool-cases (rank == k)) [
    | inl e ↦ rw e (all.0, of_rank-data k l all.1)
    | inr e ↦ rw e (of_rank-data k l all.1)
  ]

  to_each-data :
      (f : F) (n dest : ℕ)
      → is_eod core f ≡ false
      → All (λ m. is_eod core m.1 ≡ false) (to_each f n dest)
  to_each-data f zero dest e = tt
  to_each-data f (suc n) dest e = (e, to_each-data f n (dest + 1) e)

  either-data :
      (f : F) (all : Bool) (n start dest : ℕ)
      → is_eod core f ≡ false
      → All (λ m. is_eod core m.1 ≡ false) (if all then to_each f n start else (dest, f) ∷ [])
  either-data f true n start dest e = to_each-data f n start e
  either-data f false n start dest e = (e, tt)

  all_messages-data :
      (s : SHandles F) (size : ℕ) (fs : List F)
      → All (CanSend core size) fs
      → All (λ m. is_eod core m.1 ≡ false) (all_messages core s fs)
  all_messages-data s size [] all = tt
  all_messages-data s size (f ∷ fs) all =
      All-append (λ m. is_eod core m.1 ≡ false) (messages core s f) (all_messages core s fs)
        (either-data f s.broadcast_sends s.dest_count s.dest_start
          (core.sequence_id f % s.dest_count + s.dest_start)
          (let regular = all.0.0 in ground (arith, regular)))
        (all_messages-data s size fs all.1)

  ends-IsStream :
      (m : List (ℕ × F)) (k n start : ℕ)
      → All (λ m. is_eod core m.1 ≡ false) m
      → sent_to k m < size_t_mod
      → start ≤ k
      → k < start + n
      → IsStream core (of_rank k (m ++ Closing.eods core m n start))
  ends-IsStream m k n start regular small low high =
      let eod = core.eod_frag (sent_to k m % size_t_mod) in
      let total : sent_to k m % size_t_mod ≡ sent_to k m = omega (arith, small) in
      let typed = core.type_code-eod_frag (sent_to k m % size_t_mod) in
      let (one, count, announced) =
        data_stream (of_rank k m) eod (sent_to k m) (of_rank-data k m regular)
          (ground (arith, typed)) (core.first_word-eod_frag (sent_to k m % size_t_mod) ∙ total) in
      let counted = count ∙ length-of_rank k m in
      subst (IsStream core)
        (sym (
          of_rank-append k m (Closing.eods core m n start)
          ∙ ap (λ x. of_rank k m ++ x) (of_rank-eods m k n start low high)))
        (record {
          one_eod = one;
          announced =
              subst (λ t. All (Announces core t) (of_rank k m ++ eod ∷ [])) (sym counted) announced;
          bounded = omega (arith, counted, small);
        })

  -- A sender with at least one buffer and one destination, with ranks below 2^64, and with fewer
  -- than 2^64 fragments to send. Given that MPI makes progress, that the fragments are data that
  -- fits, and that every end-of-data fragment fits: when the sender is destroyed, what it has
  -- sent to each of its destinations is a stream as the receiver expects it of a source, that
  -- is, it has exactly one end-of-data fragment, which announces the number of the others.
  pub send_all-IsStream :
      (tests : ℕ → Bool) (rounds : ℕ) (fair : IsFair tests rounds) (buffers size n start : ℕ)
      (to_all synchronous : Bool)
      → 0 < buffers
      → 0 < n
      → start + n < size_t_mod
      → EodsFit core size
      → (fs : List F) → All (CanSend core size) fs
      → length fs < size_t_mod
      → (k : ℕ) → start ≤ k
      → k < start + n
      → (t : SHandles F) × (send_all core tests rounds fs
              (SHandles.new buffers size n start to_all synchronous)
            >>= close core tests rounds
          ≡ ok t)
        × IsStream core (of_rank k t.sent)
  send_all-IsStream tests rounds fair buffers size n start to_all synchronous a b c fit fs all few k
        low high =
      let s = SHandles.new buffers size n start to_all synchronous in
      let (t, run, sent) =
        send_all-close core tests rounds fair buffers size n start to_all synchronous a b c fit fs
          all in
      let le = sent_to-le k s fs in
      (
        t,
        run,
        subst (λ l. IsStream core (of_rank k l)) (sym sent)
            (ends-IsStream (all_messages core s fs) k n start (all_messages-data s size fs all)
              (omega (arith, le, few)) low high),
      )
