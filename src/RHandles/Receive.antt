-- ===== src/RHandles/Receive.antt =====
-- artdaq/DAQrate/RHandles.cc, `recvFragment`: one call takes one arrival, or ends at the timeout.
use fnal_artdaq.Base.{
  ℕ, zero, suc, ◌+◌, ◌/◌, List, [], ◌∷◌, Bool, true, false, not, none, some, Outcome, ok,
  logic_error, out_of_bounds, or_fault, require, ◌>>=◌, ◌>>◌, ltb, if◌then◌else◌, get_elem?, set,
}
use fnal_artdaq.ArtdaqCore.{ArtdaqCore}
use fnal_artdaq.RHandles.{
  RHandles, Arrival, is_done, any_source_active, index_from_source, post, repost, cancel_and_repost,
  account,
}

-- What a call returns: MPI_ANY_SOURCE, RECV_TIMEOUT, or the source, with the fragment in `output`.
pub data Received (F : Type 0) : Type 0 where
  any_source recv_timeout : Received F
  from : ℕ → F → Received F

-- MPI_Testsome makes the requests that it finds complete null.
unfoldable pub complete : {F : Type 0} → List (Arrival F) → List Bool → List Bool
complete [] reqs = reqs
complete (a ∷ arrivals) reqs = elim a.which [
  | none ↦ complete arrivals reqs
  | some which ↦ complete arrivals (set reqs which true)
]

-- The polls after the first one: so many of them, from number `idx` on, up to one that finds any.
unfoldable pub poll_loop : {F : Type 0} → (ℕ → List (Arrival F)) → ℕ → ℕ → List (Arrival F)
poll_loop polls zero idx = []
poll_loop polls (suc loops) idx = elim (polls idx) [
  | [] ↦ poll_loop polls loops (idx + 1)
  | a ∷ found ↦ a ∷ found
]

-- `sleep_loops`
unfoldable pub sleep_loops : ℕ → ℕ
sleep_loops timeout_usec = if ltb 250 (timeout_usec / 10) then timeout_usec / 250 else 10

-- The first poll, and the loop if it finds nothing.
unfoldable pub poll_all : {F : Type 0} → (ℕ → List (Arrival F)) → ℕ → List (Arrival F)
poll_all polls timeout_usec = elim (polls 0) [
  | [] ↦ poll_loop polls (sleep_loops timeout_usec) 1
  | a ∷ found ↦ a ∷ found
]

unfoldable pub poll : {F : Type 0} → (ℕ → List (Arrival F)) → ℕ → RHandles F → RHandles F
poll polls timeout_usec s = elim s.ready [
  | [] ↦ record s {
    ready = poll_all polls timeout_usec;
    reqs = complete (poll_all polls timeout_usec) s.reqs;
  }
  | a ∷ more ↦ s
]

-- "Repost to receive more data."
unfoldable pub repost_for : {F : Type 0} → (ℕ → Bool) → ℕ → ℕ → RHandles F → Outcome (RHandles F)
repost_for cancels which source s =
    or_fault (get_elem? s.src_status (index_from_source s source)) out_of_bounds >>= λ status.
    if is_done status
    then (repost which s >>= cancel_and_repost cancels source s.buffer_count 0)
    else ok (post which source s)

-- `cancelReq_` without `blocking_wait`: one MPI_Test and then ten more at most; a request that none
-- of them finds complete stays. `finishes i n` is the flag of the n-th test of the buffer `i`.
unfoldable pub finishes_within : (ℕ → Bool) → ℕ → ℕ → Bool
finishes_within finishes zero idx = false
finishes_within finishes (suc loops) idx =
    let later = finishes_within finishes loops (idx + 1) in if finishes idx then true else later

unfoldable pub cancel_req_unblocked :
    {F : Type 0} → (ℕ → Bool) → (ℕ → ℕ → Bool) → ℕ → RHandles F → Outcome (RHandles F)
cancel_req_unblocked cancels finishes buf s = do
  require (cancels buf) logic_error
  ok (if finishes_within (finishes buf) 11 0 then record s { reqs = set s.reqs buf true } else s)

-- `waitAll_`, the destructor, from the buffer `i` on.
unfoldable pub wait_all :
    {F : Type 0} → (ℕ → Bool) → (ℕ → ℕ → Bool) → ℕ → ℕ → RHandles F → Outcome (RHandles F)
wait_all cancels finishes zero i s = ok s
wait_all cancels finishes (suc left) i s = do
  posted ← or_fault (get_elem? s.req_sources i) out_of_bounds
  t ← elim posted [ none ↦ ok s | some src ↦ cancel_req_unblocked cancels finishes i s ]
  wait_all cancels finishes left (i + 1) t

module _ {F E : Type 0} (core : ArtdaqCore F E) (cancels : ℕ → Bool) where
  -- From the arrival on.
  unfoldable pub take : Arrival F → RHandles F → Outcome (Received F × RHandles F)
  take a s = do
    which ← or_fault a.which logic_error
    null ← or_fault (get_elem? s.reqs which) out_of_bounds
    require null logic_error
    t ← account core a.source a.fragment s
    u ← repost_for cancels which a.source t
    ok (from a.source a.fragment, u)

  unfoldable pub recv_fragment :
      (ℕ → List (Arrival F)) → Arrival F → ℕ → RHandles F → Outcome (Received F × RHandles F)
  recv_fragment polls waited timeout_usec s =
      let t = poll polls timeout_usec s in
      if not (any_source_active s)
      then ok (any_source, s)
      else if ltb 0 timeout_usec
      then elim t.ready [
        | [] ↦ ok (recv_timeout, t)
        | a ∷ more ↦ take a (record t { ready = more })
      ]
      else take waited (record s { reqs = complete (waited ∷ []) s.reqs })
