-- ===== src/Protocol/OneSource.antt =====
-- One source: the receiver's accounts of it fit what is still to come from it.
use fnal_artdaq.Base.{
  refl, ◌⊎◌, inl, inr, ℕ, ◌+◌, ◌-◌, ◌%◌, ◌≤◌, ◌<◌, ◌≡◌, sym, ap, ◌∙◌, List, ◌∷◌, Bool, true, false,
  ok, ◌==◌, ◌≢◌, if◌then◌else◌, arith, get_elem?, subst, All,
}
use fnal_artdaq.ArtdaqCore.{ArtdaqCore}
use fnal_artdaq.FragCounter.{size_t_mod, slot_count}
use fnal_artdaq.RHandles.{RHandles, Status, sending, pending, done, index_from_source, account}
use fnal_artdaq.RHandles.Accounts.{Source, checked, SameOthers}
use fnal_artdaq.RHandles.Accounting.{one_more, is_eod, account_lem}
use fnal_artdaq.Protocol.{eods, data_count, Announces}

-- Where a source stands that sends `total` fragments of data, of which `n` have come, if `left`
-- fragments of data and `eod_count` end-of-data fragments are to come.
abbrev pub Stands : ℕ → ℕ → ℕ → Status → ℕ → ℕ → Type 0
Stands total left eod_count status expected n =
    (n + left ≡ total)
    × (((status ≡ sending) × (eod_count ≡ 1))
        ⊎ ((status ≡ checked total n) × (expected ≡ total) × (eod_count ≡ 0)))

pub more-pending : (total n : ℕ) → n < total → checked total n ≡ pending
more-pending total n h = ground (arith, h)

-- While a fragment of data is to come, the source is not done.
pub Stands-not_done :
    (total left eod_count : ℕ) (status : Status) (expected n : ℕ)
    → Stands total (1 + left) eod_count status expected n
    → status ≢ done
Stands-not_done total left eod_count status expected n (sum, inl (is, _)) over =
    absurd (let e = sym is ∙ over in ground (arith, e))
Stands-not_done total left eod_count status expected n (sum, inr (is, _, _)) over =
    absurd
      (let e = sym (is ∙ more-pending total n (omega (arith, sum))) ∙ over in ground (arith, e))

-- While anything is to come, the source is not done; afterwards it is.
pub Stands-open :
    (total left eod_count : ℕ) (status : Status) (expected n : ℕ)
    → Stands total left eod_count status expected n
    → 0 < left + eod_count
    → status ≢ done
Stands-open total left eod_count status expected n (sum, inl (is, _)) some_left over =
    absurd (let e = sym is ∙ over in ground (arith, e))
Stands-open total left eod_count status expected n (sum, inr (is, _, zero_left)) some_left over =
    absurd (
      let e = sym (is ∙ more-pending total n (omega (arith, sum, some_left, zero_left))) ∙ over in
      ground (arith, e))

pub Stands-closed :
    (total : ℕ) (status : Status) (expected n : ℕ)
    → Stands total 0 0 status expected n
    → status ≡ done
Stands-closed total status expected n (sum, inl (_, bad)) = absurd (omega (arith, bad))
Stands-closed total status expected n (sum, inr (is, _, _)) =
    is ∙ (let e : (n == total) ≡ true = ground (arith, sum) in rw e refl)

-- One fragment, which is an end-of-data fragment with the word `word` if `eod`.
Stands-step :
    (eod : Bool) (total left eod_count word : ℕ) (status : Status) (expected n : ℕ)
    → Stands total
        ((if eod then 0 else 1) + left)
        ((if eod then 1 else 0) + eod_count)
        status
        expected
        n
    → ((eod ≡ false) ⊎ (word ≡ total))
    → total < size_t_mod
    → Stands total left eod_count
        (if eod then checked word n else one_more status expected ((n + 1) % size_t_mod))
        (if eod then word else expected)
        (if eod then n else (n + 1) % size_t_mod)
Stands-step true total left eod_count word status expected n (sum, inl (_, one)) (inr same) small =
    (omega (arith, sum), inr (ap (λ w. checked w n) same, same, omega (arith, one)))
Stands-step true total left eod_count word status expected n (sum, inl _) (inl bad) small =
    absurd (ground (arith, bad))
Stands-step true total left eod_count word status expected n (sum, inr (_, _, zero_left)) a small =
    absurd (omega (arith, zero_left))
Stands-step false total left eod_count word status expected n (sum, inl (is, one)) a small =
    let next : (n + 1) % size_t_mod ≡ n + 1 = omega (arith, sum, small) in
    (
      omega (arith, sum, next),
      inl (ap (λ st. one_more st expected ((n + 1) % size_t_mod)) is, omega (arith, one)),
    )
Stands-step false total left eod_count word status expected n (sum, inr (is, known, zero_left)) a
      small =
    let next : (n + 1) % size_t_mod ≡ n + 1 = omega (arith, sum, small) in
    let open_still = is ∙ more-pending total n (omega (arith, sum)) in
    (
      omega (arith, sum, next),
      inr (
        ap (λ st. one_more st expected ((n + 1) % size_t_mod)) open_still
            ∙ ap (λ e. checked e ((n + 1) % size_t_mod)) known,
        known,
        omega (arith, zero_left),
      ),
    )

module _ {F E : Type 0} (core : ArtdaqCore F E) where
  -- The receiver's accounts of the source fit what is still to come from it.
  pub record Keeps (total : ℕ) (s : RHandles F) (src : ℕ) (rest : List F) : Type 0 where
    pub status : Status
    pub expected : ℕ
    pub n : ℕ
    pub held : Source s src status expected n
    pub stands : Stands total (data_count core rest) (eods core rest) status expected n
    pub announced : All (Announces core total) rest
    pub bounded : total < size_t_mod

  pub Keeps-account :
      (total : ℕ) (s : RHandles F) (src : ℕ) (f : F) (rest : List F)
      → Keeps total s src (f ∷ rest)
      → (t : RHandles F) × (account core src f s ≡ ok t)
        × Keeps total t src rest
        × SameOthers src s t
  Keeps-account total s src f rest k =
      elim (account_lem core src f s k.status k.expected k.n k.held) [
        | inl (regular, over, _) ↦ absurd (
            Stands-not_done total (data_count core rest) (0 + eods core rest) k.status k.expected
              k.n
              (subst
                (λ b.
                  Stands total ((if b then 0 else 1) + data_count core rest)
                    ((if b then 1 else 0) + eods core rest) k.status k.expected k.n)
                regular k.stands)
              over)
        | inr (t, run, accepted, others) ↦ (
          t,
          run,
          record {
            status =
                if is_eod core f
                then checked (core.first_word f) k.n
                else one_more k.status k.expected ((k.n + 1) % size_t_mod);
            expected = if is_eod core f then core.first_word f else k.expected;
            n = if is_eod core f then k.n else (k.n + 1) % size_t_mod;
            held = accepted;
            stands =
                Stands-step (is_eod core f) total (data_count core rest) (eods core rest)
                  (core.first_word f) k.status k.expected k.n k.stands k.announced.0 k.bounded;
            announced = k.announced.1;
            bounded = k.bounded;
          },
          others,
        )
      ]

  -- The accounts of the other sources stay.
  pub Keeps-other :
      (total : ℕ) (s t : RHandles F) (src k : ℕ) (rest : List F)
      → SameOthers src s t
      → s.src_start ≤ src
      → k ≢ src
      → Keeps total s k rest
      → Keeps total t k rest
  unfolding index_from_source
  Keeps-other total s t src k rest others low ne v =
      let start : t.src_start ≡ s.src_start = ap (λ x. x.src_start) others.frame in
      let apart : (k - s.src_start == src - s.src_start) ≡ false =
        let h = v.held.low in ground (arith, ne, low, h) in
      let ranks : (k == src) ≡ false = ground (arith, ne) in
      let index = ap (λ x. k - x) start in
      record {
        status = v.status;
        expected = v.expected;
        n = v.n;
        held = record {
          low = let h = v.held.low in omega (arith, start, h);
          status_is =
              ap (get_elem? t.src_status) index
              ∙ subst
                  (λ b. get_elem? t.src_status (k - s.src_start) ≡ (
                    if b
                    then get_elem? t.src_status (src - s.src_start)
                    else get_elem? s.src_status (k - s.src_start)))
                  apart (others.statuses (k - s.src_start))
              ∙ v.held.status_is;
          expected_is =
              ap (get_elem? t.expected_count) index
              ∙ subst
                  (λ b. get_elem? t.expected_count (k - s.src_start) ≡ (
                    if b
                    then get_elem? t.expected_count (src - s.src_start)
                    else get_elem? s.expected_count (k - s.src_start)))
                  apart (others.expecteds (k - s.src_start))
              ∙ v.held.expected_is;
          count_is =
              subst
                (λ b. slot_count t.recv_frag_count k ≡ (
                  if b then slot_count t.recv_frag_count src else slot_count s.recv_frag_count k))
                ranks (others.counts k)
              ∙ v.held.count_is;
        };
        stands = v.stands;
        announced = v.announced;
        bounded = v.bounded;
      }
