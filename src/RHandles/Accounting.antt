-- ===== src/RHandles/Accounting.antt =====
-- What the accounting of a receiver promises for one source.
use fnal_artdaq.Base.{
  leb, ◌&&◌, ◌⊎◌, inl, inr, ℕ, ◌+◌, ◌-◌, ◌%◌, ◌≡◌, refl, sym, ◌∙◌, Bool, true, false, ok, fault,
  ltb, ◌==◌, ◌≢◌, if◌then◌else◌, arith, Bool-cases, logic_error, set, length, lt-get_elem?,
  get_elem?-set_self, get_elem?-set_ne, length-set, subst,
}
use fnal_artdaq.ArtdaqCore.{ArtdaqCore}
use fnal_artdaq.FragCounter.{size_t_mod}
use fnal_artdaq.FragCounter.Counts.{slot-Increments}
use fnal_artdaq.RHandles.Accounts.{
  Source, checked, SameOthers, SameOthers-refl, SameOthers-trans, checked_if,
}
use fnal_artdaq.RHandles.{
  RHandles, Status, sending, pending, done, index_from_source, mark, check, account,
}

module _ {F E : Type 0} (core : ArtdaqCore F E) where
  mark_eod :
      (src : ℕ) (f : F) (s : RHandles F) {status : Status} {expected n : ℕ}
      → Source s src status expected n
      → core.type_code f ≡ core.end_of_data
      → (t : RHandles F) × (mark core src f s ≡ ok t)
        × Source t src pending (core.first_word f) n
        × SameOthers src s t
  unfolding mark index_from_source
  mark_eod src f s v eod =
      let i : ℕ = src - s.src_start in
      let bound = lt-get_elem? s.src_status i v.status_is in
      let bound' = lt-get_elem? s.expected_count i v.expected_is in
      let tested : (core.type_code f == core.end_of_data) ≡ true = ground (arith, eod) in
      let low = v.low in
      let inside : (leb s.src_start src && ltb i (length s.src_status)) ≡ true =
        ground (arith, low, bound) in
      (
        record s {
          src_status = set s.src_status i pending;
          expected_count = set s.expected_count i (core.first_word f);
        },
        rw (tested, inside) refl,
        record {
          low = v.low;
          status_is = get_elem?-set_self s.src_status i pending bound;
          expected_is = get_elem?-set_self s.expected_count i (core.first_word f) bound';
          count_is = v.count_is;
        },
        record {
          frame = refl;
          same_size = length-set s.src_status i pending;
          statuses = λ k. ground (arith, get_elem?-set_ne s.src_status i k pending);
          expecteds =
              λ k. ground (arith, get_elem?-set_ne s.expected_count i k (core.first_word f));
          counts = λ k. ground arith;
        },
      )

  mark_one :
      (src : ℕ) (f : F) (s : RHandles F) {status : Status} {expected n : ℕ}
      → Source s src status expected n
      → core.type_code f ≢ core.end_of_data
      → (t : RHandles F) × (mark core src f s ≡ ok t)
        × Source t src status expected ((n + 1) % size_t_mod)
        × SameOthers src s t
  unfolding mark index_from_source
  mark_one src f s {n = n} v regular =
      let (d, run, i) = slot-Increments s.recv_frag_count src n v.count_is in
      let tested : (core.type_code f == core.end_of_data) ≡ false = ground (arith, regular) in
      (
        record s { recv_frag_count = d },
        rw (tested, run) refl,
        record {
          low = v.low;
          status_is = v.status_is;
          expected_is = v.expected_is;
          count_is = i.reads src ∙ ground (arith, v.count_is);
        },
        record {
          frame = refl;
          same_size = refl;
          statuses = λ k. ground arith;
          expecteds = λ k. ground arith;
          counts = λ k. let r = i.reads k in ground (arith, r);
        },
      )

check_pending :
    {F : Type 0} (src : ℕ) (s : RHandles F) {expected n : ℕ}
    → Source s src pending expected n
    → (t : RHandles F) × (check src s ≡ ok t)
      × Source t src (checked expected n) expected n
      × SameOthers src s t
unfolding check index_from_source
check_pending src s {expected} {n} v =
    let i : ℕ = src - s.src_start in
    let bound = lt-get_elem? s.src_status i v.status_is in
    let e = v.status_is in
    elim (Bool-cases (n == expected)) [
      | inl all ↦ (
        record s { src_status = set s.src_status i done },
        rw (e, v.count_is, v.expected_is, all) refl,
        record {
          low = v.low;
          status_is = get_elem?-set_self s.src_status i done bound ∙ checked_if expected n all;
          expected_is = v.expected_is;
          count_is = v.count_is;
        },
        record {
          frame = refl;
          same_size = length-set s.src_status i done;
          statuses = λ k. ground (arith, get_elem?-set_ne s.src_status i k done);
          expecteds = λ k. ground arith;
          counts = λ k. ground arith;
        },
      )
      | inr more ↦ (
        s,
        rw (e, v.count_is, v.expected_is, more) refl,
        record {
          low = v.low;
          status_is = e ∙ checked_if expected n more;
          expected_is = v.expected_is;
          count_is = v.count_is;
        },
        SameOthers-refl src s,
      )
    ]

-- The status of a source once a fragment of data is counted.
abbrev pub one_more : Status → ℕ → ℕ → Status
one_more sending expected n = sending
one_more pending expected n = checked expected n
one_more done expected n = done

check_one :
    {F : Type 0} (src : ℕ) (s : RHandles F) (status : Status) {expected n : ℕ}
    → Source s src status expected n
    → ((status ≡ done) × (check src s ≡ fault logic_error))
      ⊎ ((t : RHandles F) × (check src s ≡ ok t)
          × Source t src (one_more status expected n) expected n
          × SameOthers src s t)
unfolding check
check_one src s sending v = inr (s, rw v.status_is refl, v, SameOthers-refl src s)
check_one src s pending v = inr (check_pending src s v)
check_one src s done v = inl (refl, rw v.status_is refl)

-- The accounts of a source that held `status`, `expected` and `n` after a fragment that, if it is
-- an end-of-data fragment, announces `word`.
abbrev pub Accepted : {F : Type 0} → RHandles F → ℕ → Bool → ℕ → Status → ℕ → ℕ → Type 0
Accepted t src eod word status expected n =
    Source t src (if eod then checked word n else one_more status expected ((n + 1) % size_t_mod))
      (if eod then word else expected) (if eod then n else (n + 1) % size_t_mod)

module _ {F E : Type 0} (core : ArtdaqCore F E) where
  abbrev pub is_eod : F → Bool
  is_eod f = core.type_code f == core.end_of_data

  -- For a source of which the accounts are known: a fragment from it is counted, or, if it is an
  -- end-of-data fragment, announces the count; the source is done when, after an announcement,
  -- the two agree. A further fragment of data from a source that is done is an error. No other
  -- source is affected.
  pub account_lem :
      (src : ℕ) (f : F) (s : RHandles F) (status : Status) (expected n : ℕ)
      → Source s src status expected n
      → ((is_eod f ≡ false) × (status ≡ done) × (account core src f s ≡ fault logic_error))
        ⊎ ((t : RHandles F) × (account core src f s ≡ ok t)
            × Accepted t src (is_eod f) (core.first_word f) status expected n
            × SameOthers src s t)
  unfolding account
  account_lem src f s status expected n v = elim (Bool-cases (is_eod f)) [
    | inl eod ↦
        let (t, marked, w, others) = mark_eod core src f s v (ground (arith, eod)) in
        let (u, run, x, more) = check_pending src t w in
        inr (
          u,
          rw marked run,
          subst (λ b. Accepted u src b (core.first_word f) status expected n) (sym eod) x,
          SameOthers-trans src s t u others more,
        )
    | inr regular ↦
        let (t, marked, w, others) = mark_one core src f s v (ground (arith, regular)) in
        elim (check_one src t status w) [
          | inl (over, bad) ↦ inl (regular, over, rw marked bad)
          | inr (u, run, x, more) ↦ inr (
            u,
            rw marked run,
            subst (λ b. Accepted u src b (core.first_word f) status expected n) (sym regular) x,
            SameOthers-trans src s t u others more,
          )
        ]
  ]
