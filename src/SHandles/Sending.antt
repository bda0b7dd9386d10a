-- ===== src/SHandles/Sending.antt =====
-- A send finds a buffer, and goes where the round robin says.
use fnal_artdaq.Base.{
  dec_lt, ◌⊎◌, inl, inr, ℕ, zero, suc, ◌+◌, ◌%◌, ◌<◌, ◌≡◌, refl, ap, ◌∙◌, [], ◌∷◌, ◌++◌, Bool, true,
  false, some, ok, fault, if◌then◌else◌, set, length, arith, get_elem?-lt, length-set, Bool-cases,
  unimplemented,
}
use fnal_artdaq.ArtdaqCore.{ArtdaqCore}
use fnal_artdaq.SHandles.{SHandles, find_available, send_frag_to}

-- The next buffer to try is one of the buffers, of which there is at least one.
pub record IsReady {F : Type 0} (s : SHandles F) : Type 0 where
  pub sized : length s.reqs ≡ s.buffer_count
  pub placed : s.pos < s.buffer_count

-- MPI makes progress: of so many tests one after another, one finds its request complete.
abbrev pub IsFair : (ℕ → Bool) → ℕ → Type 0
IsFair tests rounds = (n : ℕ) → (k : ℕ) × (k < rounds) × (tests (n + k) ≡ true)

-- Only the buffers' bookkeeping differs.
abbrev pub SameSends : {F : Type 0} → SHandles F → SHandles F → Type 0
SameSends s t = t ≡ record s { pos = t.pos; tests_made = t.tests_made; reqs = t.reqs }

next-lt : (pos n : ℕ) → 0 < n → (pos + 1) % n < n
next-lt pos n h = grind arith

-- A test that fails is not the one that succeeds.
pred_test :
    (tests : ℕ → Bool) (n k : ℕ) {rounds : ℕ}
    → tests n ≡ false
    → tests (n + k) ≡ true
    → k < suc rounds
    → (j : ℕ) × (j < rounds) × (tests (n + 1 + j) ≡ true)
pred_test tests n zero busy good h = absurd (let z : n + 0 ≡ n = omega arith in cc)
pred_test tests n (suc j) busy good h = (j, omega arith, rw (step n j) good)
  where
    step : (n j : ℕ) → n + 1 + j ≡ n + suc j
    step n j = omega arith

-- The search goes on with the next buffer.
abbrev skipped : {F : Type 0} → SHandles F → SHandles F
skipped s = record s { pos = (s.pos + 1) % s.buffer_count; tests_made = s.tests_made + 1 }

abbrev pub SameSettings : {F : Type 0} → SHandles F → SHandles F → Type 0
SameSettings s t =
    (t.max_payload_size ≡ s.max_payload_size)
    × (t.dest_count ≡ s.dest_count)
    × (t.dest_start ≡ s.dest_start)
    × (t.broadcast_sends ≡ s.broadcast_sends)

find_available-within :
    {F : Type 0} (tests : ℕ → Bool) (rounds k : ℕ) (s : SHandles F)
    → IsReady s
    → k < rounds
    → tests (s.tests_made + k) ≡ true
    → (i : ℕ) × (t : SHandles F) × (find_available tests rounds s ≡ ok (i, t))
      × (i < s.buffer_count)
      × IsReady t
      × SameSends s t
unfolding find_available
find_available-within tests zero k s v h e = elim h [ ]
find_available-within tests (suc rounds) k s v h e =
    let (null, there) = get_elem?-lt s.reqs s.pos (omega (arith, v.sized, v.placed)) in
    elim (Bool-cases null) [
      | inl free ↦ (
        s.pos,
        record s { pos = (s.pos + 1) % s.buffer_count },
        rw (there, free),
        v.placed,
        record { sized = v.sized; placed = next-lt s.pos s.buffer_count (omega (arith, v.placed)) },
        refl,
      )
      | inr pending ↦ elim (Bool-cases (tests s.tests_made)) [
        | inl done ↦ (
          s.pos,
          record s {
            pos = (s.pos + 1) % s.buffer_count;
            tests_made = s.tests_made + 1;
            reqs = set s.reqs s.pos true;
          },
          rw (there, pending, done),
          v.placed,
          record {
            sized = length-set s.reqs s.pos true ∙ v.sized;
            placed = next-lt s.pos s.buffer_count (omega (arith, v.placed));
          },
          refl,
        )
        | inr busy ↦
            let (j, low, good) = pred_test tests s.tests_made k busy e h in
            let (i, t, run, below, ready, same) =
              find_available-within tests rounds j (skipped s)
                (record {
                  sized = v.sized;
                  placed = next-lt s.pos s.buffer_count (omega (arith, v.placed));
                })
                low good in
            (i, t, rw (there, pending, busy) run, below, ready, same)
      ]
    ]

module _ {F E : Type 0} (core : ArtdaqCore F E) (tests : ℕ → Bool) (rounds : ℕ) where
  -- A fragment that fits is sent to its destination and to no other; one that does not fit is
  -- refused. `IsFair` bounds the search for a free buffer.
  pub send_frag_to_lem :
      (fair : IsFair tests rounds) (f : F) (dest : ℕ) (s : SHandles F)
      → IsReady s
      → ((s.max_payload_size < core.data_size f)
          × (send_frag_to core tests rounds f dest s ≡ fault unimplemented))
        ⊎ ((t : SHandles F) × (send_frag_to core tests rounds f dest s ≡ ok t)
            × IsReady t
            × (t.sent ≡ s.sent ++ (dest, f) ∷ [])
            × (t.sent_frag_count ≡ s.sent_frag_count)
            × SameSettings s t)
  unfolding send_frag_to
  send_frag_to_lem fair f dest s v = elim (dec_lt s.max_payload_size (core.data_size f)) [
    | yes large ↦ inl (large, ground arith)
    | no fits ↦
        let (k, low, good) = fair s.tests_made in
        let (i, t, run, below, ready, same) = find_available-within tests rounds k s v low good in
        let sent_as = ap (λ x. x.sent) same in
        inr (
          record t {
            payload = set t.payload i (some f);
            sent = t.sent ++ (dest, f) ∷ [];
            reqs = if t.synchronous_sends then t.reqs else set t.reqs i false;
          },
          ground (arith, run),
          record {
            sized = elim (Bool-cases t.synchronous_sends) [
              | inl e ↦ rw e ready.sized
              | inr e ↦ rw e (length-set t.reqs i false ∙ ready.sized)
            ];
            placed = ready.placed;
          },
          ap (λ l. l ++ (dest, f) ∷ []) sent_as,
          ap (λ x. x.sent_frag_count) same,
          (
            ap (λ x. x.max_payload_size) same,
            ap (λ x. x.dest_count) same,
            ap (λ x. x.dest_start) same,
            ap (λ x. x.broadcast_sends) same,
          ),
        )
  ]
