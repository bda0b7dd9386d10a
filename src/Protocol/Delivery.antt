-- ===== src/Protocol/Delivery.antt =====
-- A receiver is done with its sources exactly when all their messages have come.
use fnal_artdaq.Base.{
  All-append_left, length-replicate, ◌>>=◌, All-append_right, ◌⊎◌, inl, inr, Bool, not, ◌||◌, some,
  get_elem?, zero, suc, ◌-◌, ℕ, ◌+◌, ◌≤◌, ◌<◌, ◌≡◌, refl, sym, ap, ◌∙◌, List, [], ◌∷◌, ◌++◌, true,
  false, ok, ◌==◌, ◌≢◌, arith, ℕ_discrete, length, subst, All,
}
use fnal_artdaq.ArtdaqCore.{ArtdaqCore}
use fnal_artdaq.RHandles.{
  Status, sending, pending, done, is_done, any_active, any_source_active, index_from_source,
  RHandles, account,
}
use fnal_artdaq.RHandles
use fnal_artdaq.Protocol.{data_count, eods, IsStream, of_rank, account_all}
use fnal_artdaq.RHandles.Start.{Begins, new-Begins, Begins-Source}
use fnal_artdaq.Protocol.OneSource.{Stands-open, Stands-closed, Keeps, Keeps-account, Keeps-other}

of_rank_self :
    {F : Type 0} (k : ℕ) (f : F) (l : List (ℕ × F)) → of_rank k ((k, f) ∷ l) ≡ f ∷ of_rank k l
of_rank_self k f l = let e : (k == k) ≡ true = ground arith in rw e refl

of_rank-other :
    {F : Type 0} (k src : ℕ) (f : F) (l : List (ℕ × F))
    → k ≢ src
    → of_rank k ((src, f) ∷ l) ≡ of_rank k l
of_rank-other k src f l ne = let e : (src == k) ≡ false = ground (arith, ne) in rw e refl

-- The messages come from the sources of the receiver.
abbrev pub FromSources : {F : Type 0} → ℕ → ℕ → List (ℕ × F) → Type 0
FromSources start n l = All (λ m. (start ≤ m.0) × (m.0 < start + n)) l

FromSources-cong :
    {F : Type 0} (l : List (ℕ × F)) {start n first size : ℕ}
    → start ≡ first
    → n ≡ size
    → FromSources first size l
    → FromSources start n l
FromSources-cong l a b from = rw (a, b) from

-- The ranges are the same.
abbrev pub SameRange : {F : Type 0} → RHandles F → RHandles F → Type 0
SameRange s t = (t.src_start ≡ s.src_start) × (length t.src_status ≡ length s.src_status)

is_done-cases : (st : Status) → (is_done st ≡ false) ⊎ (st ≡ done)
is_done-cases sending = inl refl
is_done-cases pending = inl refl
is_done-cases done = inr refl

or_true : (b : Bool) → b || true ≡ true
or_true true = refl
or_true false = refl

any_active-some :
    (l : List Status) (i : ℕ) {st : Status}
    → get_elem? l i ≡ some st
    → st ≢ done
    → any_active l ≡ true
any_active-some [] i e ne = absurd (ground (arith, e))
any_active-some (a ∷ l) zero e ne = elim (is_done-cases a) [
  | inl active ↦ rw active refl
  | inr over ↦ absurd (ne (ground (arith, sym e ∙ ap some over)))
]
any_active-some (a ∷ l) (suc i) e ne = rw (any_active-some l i e ne) (or_true (not (is_done a)))

any_active-none :
    (l : List Status) → ((i : ℕ) → i < length l → get_elem? l i ≡ some done) → any_active l ≡ false
any_active-none [] all = refl
any_active-none (a ∷ l) all =
    let first : a ≡ done = ground (arith, all 0 (omega arith)) in
    rw first (any_active-none l (λ i h. all (suc i) (omega (arith, h))))

abbrev pub is_empty : {A : Type 0} → List A → Bool
is_empty [] = true
is_empty (a ∷ l) = false

module _ {F E : Type 0} (core : ArtdaqCore F E) where
  -- Every source stands where the messages to come leave it. `totals k` is what `k` sends.
  abbrev KeepsAll : (ℕ → ℕ) → RHandles F → RHandles F → List (ℕ × F) → Type 0
  KeepsAll totals s t l =
      (k : ℕ)
      → s.src_start ≤ k
      → k < s.src_start + length s.src_status
      → Keeps core (totals k) t k (of_rank k l)

  KeepsAll-account :
      (totals : ℕ → ℕ) (r s : RHandles F) (src : ℕ) (f : F) (l : List (ℕ × F))
      → KeepsAll totals r s ((src, f) ∷ l)
      → r.src_start ≤ src
      → src < r.src_start + length r.src_status
      → (t : RHandles F) × (account core src f s ≡ ok t) × KeepsAll totals r t l × SameRange s t
  KeepsAll-account totals r s src f l all low high =
      let mine = subst (Keeps core (totals src) s src) (of_rank_self src f l) (all src low high) in
      let (t, run, keeps, others) = Keeps-account core (totals src) s src f (of_rank src l) mine in
      (
        t,
        run,
        λ k a b. elim (ℕ_discrete k src) [
          | yes same ↦ subst (λ k. Keeps core (totals k) t k (of_rank k l)) (sym same) keeps
          | no ne ↦
              Keeps-other core (totals k) s t src k (of_rank k l) others mine.held.low ne
                (subst (Keeps core (totals k) s k) (of_rank-other k src f l ne) (all k a b))
        ],
        (ap (λ x. x.src_start) others.frame, others.same_size),
      )

  accounts_to :
      (totals : ℕ → ℕ) (r s : RHandles F) (l rest : List (ℕ × F))
      → KeepsAll totals r s (l ++ rest)
      → FromSources r.src_start (length r.src_status) l
      → (t : RHandles F) × (account_all core l s ≡ ok t) × KeepsAll totals r t rest × SameRange s t
  accounts_to totals r s [] rest all from = (s, refl, all, (refl, refl))
  accounts_to totals r s ((src, f) ∷ l) rest all from =
      let (t, first, keeps, same) =
        KeepsAll-account totals r s src f (l ++ rest) all from.0.0 from.0.1 in
      let (u, run, left, others) = accounts_to totals r t l rest keeps from.1 in
      (u, rw first run, left, (others.0 ∙ same.0, others.1 ∙ same.1))

  -- What the statuses are when the messages `rest` are to come.
  KeepsAll-any :
      (totals : ℕ → ℕ) (r t : RHandles F) (rest : List (ℕ × F))
      → KeepsAll totals r t rest
      → SameRange r t
      → FromSources r.src_start (length r.src_status) rest
      → any_source_active t ≡ not (is_empty rest)
  unfolding any_source_active index_from_source
  KeepsAll-any totals r t [] all same from = any_active-none t.src_status (λ i h.
      let k = all (i + r.src_start) (omega arith) (let (a, b) = same in omega (arith, h, b)) in
      let index : (i + r.src_start) - t.src_start ≡ i = let (a, b) = same in omega (arith, a) in
      ap (get_elem? t.src_status) (sym index)
      ∙ k.held.status_is
      ∙ ap some (Stands-closed (totals (i + r.src_start)) k.status k.expected k.n k.stands))
  KeepsAll-any totals r t ((k, f) ∷ rest) all same from =
      let mine =
        subst (Keeps core (totals k) t k) (of_rank_self k f rest) (all k from.0.0 from.0.1) in
      any_active-some t.src_status (k - t.src_start) mine.held.status_is (
        Stands-open (totals k) (data_count core (f ∷ of_rank k rest))
          (eods core (f ∷ of_rank k rest)) mine.status mine.expected mine.n mine.stands
          (ground arith))

  Begins-KeepsAll :
      (n start : ℕ) (s : RHandles F) (l : List (ℕ × F))
      → Begins n start s
      → ((k : ℕ) → start ≤ k → k < start + n → IsStream core (of_rank k l))
      → KeepsAll (λ k. data_count core (of_rank k l)) s s l
  Begins-KeepsAll n start s l begins streams k low high =
      let size = ap length begins.1 ∙ length-replicate n sending in
      let start_at = begins.0 in
      let above : start ≤ k = omega (arith, low, start_at) in
      let below : k < start + n = omega (arith, high, start_at, size) in
      let stream = streams k above below in
      record {
        status = sending;
        expected = 0;
        n = 0;
        held = Begins-Source n start k s begins above below;
        stands = (omega arith, inl (refl, stream.one_eod));
        announced = stream.announced;
        bounded = stream.bounded;
      }

  -- A new receiver with at least one buffer and `n` sources, at least one, from the rank `start`
  -- on; all messages come from these, and each source sends some fragments of data, fewer than
  -- 2^64, and one end-of-data fragment with the number of them: whatever the order of all these
  -- messages, the accounting of any first part of them meets no error, and then some source is
  -- active exactly if messages are left.
  pub account_all_lem :
      (buffers size n start : ℕ) (l rest : List (ℕ × F))
      → 0 < buffers
      → 0 < n
      → FromSources start n (l ++ rest)
      → ((k : ℕ) → start ≤ k → k < start + n → IsStream core (of_rank k (l ++ rest)))
      → (t : RHandles F) × (RHandles.new buffers size n start >>= account_all core l ≡ ok t)
        × (any_source_active t ≡ not (is_empty rest))
  account_all_lem buffers size n start l rest some_buffer some_source from streams =
      let (s, made, begins) = new-Begins buffers size n start some_buffer some_source in
      let all = Begins-KeepsAll n start s (l ++ rest) begins streams in
      let size = ap length begins.1 ∙ length-replicate n sending in
      let from' = FromSources-cong (l ++ rest) begins.0 size from in
      let (t, run, left, same) =
        accounts_to (λ k. data_count core (of_rank k (l ++ rest))) s s l rest all
          (All-append_left (λ m. (s.src_start ≤ m.0) × (m.0 < s.src_start + length s.src_status)) l
            rest from') in
      (
        t,
        rw made run,
        KeepsAll-any (λ k. data_count core (of_rank k (l ++ rest))) s t rest left same
            (All-append_right (λ m. (s.src_start ≤ m.0) × (m.0 < s.src_start + length s.src_status))
              l rest from'),
      )
