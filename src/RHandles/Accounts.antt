-- ===== src/RHandles/Accounts.antt =====
-- The accounts of one source, and what it means that only they change.
use fnal_artdaq.Base.{
  inl, inr, ℕ, ◌-◌, ◌≤◌, ◌≡◌, refl, sym, ap, ◌∙◌, Bool, some, ok, ◌==◌, if◌then◌else◌, arith,
  Bool-cases, get_elem?, length, subst,
}
use fnal_artdaq.FragCounter.{slot_count}
use fnal_artdaq.RHandles.{RHandles, Status, pending, done, index_from_source}

-- What a receiver holds of the source `src`: its status, its announced number, its count.
pub record Source {F : Type 0} (s : RHandles F) (src : ℕ) (status : Status) (expected n : ℕ)
    : Type 0 where
  pub low : s.src_start ≤ src
  pub status_is : get_elem? s.src_status (index_from_source s src) ≡ some status
  pub expected_is : get_elem? s.expected_count (index_from_source s src) ≡ some expected
  pub count_is : slot_count s.recv_frag_count src ≡ ok n

-- A source that has announced `expected` is done when that many have come.
abbrev pub checked : ℕ → ℕ → Status
checked expected n = if n == expected then done else pending

-- `s` with the accounts of `t`.
abbrev pub with_accounts : {F : Type 0} → RHandles F → RHandles F → RHandles F
with_accounts t s = record s {
  recv_frag_count = t.recv_frag_count;
  src_status = t.src_status;
  expected_count = t.expected_count;
}

-- Nothing but the accounts of the source differs.
pub record SameOthers {F : Type 0} (src : ℕ) (s t : RHandles F) : Type 0 where
  pub frame : t ≡ with_accounts t s
  pub same_size : length t.src_status ≡ length s.src_status
  pub statuses :
      (k : ℕ)
      → get_elem? t.src_status k ≡ (
          if k == index_from_source s src
          then get_elem? t.src_status (index_from_source s src)
          else get_elem? s.src_status k)
  pub expecteds :
      (k : ℕ)
      → get_elem? t.expected_count k ≡ (
          if k == index_from_source s src
          then get_elem? t.expected_count (index_from_source s src)
          else get_elem? s.expected_count k)
  pub counts :
      (k : ℕ)
      → slot_count t.recv_frag_count k
        ≡ (if k == src then slot_count t.recv_frag_count src else slot_count s.recv_frag_count k)

pub SameOthers-refl : {F : Type 0} (src : ℕ) (s : RHandles F) → SameOthers src s s
SameOthers-refl src s = record {
  frame = refl;
  same_size = refl;
  statuses = λ k. ground arith;
  expecteds = λ k. ground arith;
  counts = λ k. ground arith;
}

-- Two changes at `i` only, one after the other.
at_one_trans :
    {A : Type 0} (i j k : ℕ) (a b c : ℕ → A)
    → j ≡ i
    → b k ≡ (if k == i then b i else a k)
    → c k ≡ (if k == j then c j else b k)
    → c k ≡ (if k == i then c i else a k)
at_one_trans i j k a b c same first second =
    let last = subst (λ j. c k ≡ (if k == j then c j else b k)) same second in
    elim (Bool-cases (k == i)) [
      | inl here ↦
          subst (λ e. c k ≡ (if e then c i else a k)) (sym here) (ap c (ground (arith, here)))
      | inr there ↦ rw there (
          subst (λ e. c k ≡ (if e then c i else b k)) there last
          ∙ subst (λ e. b k ≡ (if e then b i else a k)) there first)
    ]

pub SameOthers-trans :
    {F : Type 0} (src : ℕ) (s t u : RHandles F)
    → SameOthers src s t
    → SameOthers src t u
    → SameOthers src s u
unfolding index_from_source
SameOthers-trans src s t u a b =
    let i : ℕ = src - s.src_start in
    let j : ℕ = src - t.src_start in
    let moved : j ≡ i = ap (λ x. src - x.src_start) a.frame in
    record {
      frame = b.frame ∙ ap (with_accounts u) a.frame;
      same_size = b.same_size ∙ a.same_size;
      statuses = λ k.
          at_one_trans i j k (get_elem? s.src_status) (get_elem? t.src_status)
            (get_elem? u.src_status) moved (a.statuses k) (b.statuses k);
      expecteds = λ k.
          at_one_trans i j k (get_elem? s.expected_count) (get_elem? t.expected_count)
            (get_elem? u.expected_count) moved (a.expecteds k) (b.expecteds k);
      counts = λ k.
          at_one_trans src src k (slot_count s.recv_frag_count) (slot_count t.recv_frag_count)
            (slot_count u.recv_frag_count) refl (a.counts k) (b.counts k);
    }

-- The status after a check.
pub checked_if :
    (expected n : ℕ) {b : Bool}
    → (n == expected) ≡ b
    → some (if b then done else pending) ≡ some (checked expected n)
checked_if expected n e = ap (λ b. some (if b then done else pending)) (sym e)
