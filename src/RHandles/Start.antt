-- ===== src/RHandles/Start.antt =====
-- A new receiver has heard of no source.
use fnal_artdaq.Base.{
  ℕ, zero, suc, ◌+◌, ◌-◌, ◌%◌, ◌≤◌, ◌<◌, ◌≡◌, refl, sym, false, ok, ◌==◌, arith, replicate,
  get_elem?-replicate, subst,
}
use fnal_artdaq.FragCounter.{slot_count}
use fnal_artdaq.FragCounter
use fnal_artdaq.RHandles.{RHandles, Status, sending, post, post_all, initial, index_from_source}
use fnal_artdaq.RHandles
use fnal_artdaq.RHandles.Accounts.{Source}

-- The accounts are the same.
abbrev pub SameAccounts : {F : Type 0} → RHandles F → RHandles F → Type 0
SameAccounts s t =
    (t.src_start ≡ s.src_start)
    × (t.src_count ≡ s.src_count)
    × (t.src_status ≡ s.src_status)
    × (t.expected_count ≡ s.expected_count)
    × (t.recv_frag_count ≡ s.recv_frag_count)

post_all-SameAccounts :
    {F : Type 0} (left i : ℕ) (s : RHandles F) → SameAccounts s (post_all left i s)
unfolding post_all post
post_all-SameAccounts zero i s = (refl, refl, refl, refl, refl)
post_all-SameAccounts (suc left) i s =
    post_all-SameAccounts left (i + 1) (post i (i % s.src_count + s.src_start) s)

-- A receiver with the buffers and sources of the constructor's arguments.
abbrev pub Begins : {F : Type 0} → ℕ → ℕ → RHandles F → Type 0
Begins n start s =
    (s.src_start ≡ start)
    × (s.src_status ≡ replicate n sending)
    × (s.expected_count ≡ replicate n 0)
    × (s.recv_frag_count ≡ FragCounter.new n start)

pub new-Begins :
    {F : Type 0} (buffers size n start : ℕ)
    → 0 < buffers
    → 0 < n
    → (s : RHandles F) × (RHandles.new {F = F} buffers size n start ≡ ok s) × Begins n start s
unfolding RHandles.new initial
new-Begins buffers size n start some_buffer some_source =
    let b : (buffers == 0) ≡ false = ground (arith, some_buffer) in
    let c : (n == 0) ≡ false = ground (arith, some_source) in
    let (at, _, statuses, expected, counts) =
      post_all-SameAccounts buffers 0 (initial buffers size n start) in
    (
      post_all buffers 0 (initial buffers size n start),
      rw (c, b) refl,
      (at, statuses, expected, counts),
    )

pub Begins-Source :
    {F : Type 0} (n start k : ℕ) (s : RHandles F)
    → Begins n start s
    → start ≤ k
    → k < start + n
    → Source s k sending 0 0
unfolding index_from_source slot_count FragCounter.new
Begins-Source n start k s (a, b, c, d) low high = record {
  low = omega (arith, a, low);
  status_is = rw (a, b) (get_elem?-replicate n (k - start) sending (omega (arith, low, high)));
  expected_is = rw (a, c) (get_elem?-replicate n (k - start) 0 (omega (arith, low, high)));
  count_is =
      subst (λ c. slot_count c k ≡ ok 0) (sym d)
        (ground (arith, get_elem?-replicate {A = ℕ} n (k - start) 0, low, high));
}
