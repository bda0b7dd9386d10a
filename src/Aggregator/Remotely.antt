-- ===== src/Aggregator/Remotely.antt =====
-- Whom `sendPauseAndResume_` of artdaq/Application/MPI2/AggregatorCore.cc calls, and in which order.
use Prim.Native.String.{String}
use fnal_artdaq.Base.{
  ℕ, zero, suc, ◌+◌, ◌≤◌, ◌≡◌, refl, ap, ◌∙◌, List, [], ◌∷◌, ◌++◌, Bool, false, replicate,
  append_assoc, Bool-cases, ◌⊎◌, inl, inr, arith,
}
use fnal_artdaq.Aggregator.{AggregatorCore}
use fnal_artdaq.Aggregator.Remote.{
  RemoteCall, attempt_loop, call_group, call_forwards, call_backwards, send_pause_and_resume,
}

-- The clients in the order of the groups, and with the groups from the last to the first.
abbrev pub forwards : List (List String) → List String
forwards [] = []
forwards (group ∷ groups) = group ++ forwards groups

abbrev pub backwards : List (List String) → List String
backwards [] = []
backwards (group ∷ groups) = backwards groups ++ group

-- The calls of a method go to each client in turn, one to five times.
abbrev pub Reaches : String → List String → List RemoteCall → Type 0
Reaches method [] calls = calls ≡ []
Reaches method (url ∷ urls) calls =
    (k : ℕ) × (more : List RemoteCall) × (1 ≤ k)
    × (k ≤ 5)
    × (calls ≡ replicate k (record { url = url; method = method }) ++ more)
    × Reaches method urls more

Reaches-append :
    (method : String) (us vs : List String) (xs ys : List RemoteCall)
    → Reaches method us xs
    → Reaches method vs ys
    → Reaches method (us ++ vs) (xs ++ ys)
Reaches-append method [] vs xs ys h h' = rw h h'
Reaches-append method (u ∷ us) vs xs ys (k, more, one, five, e, h) h' = (
  k,
  more ++ ys,
  one,
  five,
  ap (◌++ ys) e ∙ append_assoc (replicate k _) more ys,
  Reaches-append method us vs more ys h h',
)

module _ (answers : ℕ → Bool) (method : String) where
  attempt_loop-replicate :
      (left : ℕ) (url : String) (n : ℕ)
      → (k : ℕ) × (k ≤ left)
        × ((attempt_loop answers method left url n).0
            ≡ replicate k (record { url = url; method = method }))
        × ((left ≡ 0) ⊎ (1 ≤ k))
  unfolding attempt_loop
  attempt_loop-replicate zero url n = (0, omega arith, refl, inl refl)
  attempt_loop-replicate (suc left) url n = elim (Bool-cases (answers n)) [
    | inl good ↦ (1, omega arith, rw good refl, inr (omega arith))
    | inr bad ↦
        let (k, small, same, called) = attempt_loop-replicate left url (n + 1) in
        (
          suc k,
          omega arith,
          rw bad (ap (◌∷◌ (record { url = url; method = method })) same),
          inr (omega arith),
        )
  ]

  call_group-Reaches :
      (urls : List String) (n : ℕ) → Reaches method urls (call_group answers method urls n).0
  unfolding call_group
  call_group-Reaches [] n = refl
  call_group-Reaches (url ∷ urls) n =
      let (k, small, same, some_calls) = attempt_loop-replicate 5 url n in
      let next = (attempt_loop answers method 5 url n).1 in
      let more = (call_group answers method urls next).0 in
      (k, more, ground (arith, some_calls), small, ap (◌++ more) same, call_group-Reaches urls next)

  call_forwards-Reaches :
      (groups : List (List String)) (n : ℕ)
      → Reaches method (forwards groups) (call_forwards answers method groups n).0
  unfolding call_forwards
  call_forwards-Reaches [] n = refl
  call_forwards-Reaches (group ∷ groups) n =
      Reaches-append method group (forwards groups) _ _ (call_group-Reaches group n)
        (call_forwards-Reaches groups (call_group answers method group n).1)

  call_backwards-Reaches :
      (groups : List (List String)) (n : ℕ)
      → Reaches method (backwards groups) (call_backwards answers method groups n).0
  unfolding call_backwards
  call_backwards-Reaches [] n = refl
  call_backwards-Reaches (group ∷ groups) n =
      Reaches-append method (backwards groups) group _ _ (call_backwards-Reaches groups n)
        (call_group-Reaches group (call_backwards answers method groups n).1)

module _ {P F E : Type 0} where
  -- Whatever the clients answer, each client of the list is told to pause, the groups from the first
  -- to the last, and then each is told to resume, the groups from the last to the first; each is
  -- told one to five times in a row. Then the next pause can be requested.
  pub send_pause_and_resume-Reaches :
      (answers : ℕ → Bool) (s : AggregatorCore P F E)
      → let (calls, t) = send_pause_and_resume answers s in
        (pauses : List RemoteCall) × (resumes : List RemoteCall) × (calls ≡ pauses ++ resumes)
        × Reaches "daq.pause" (forwards s.xmlrpc_client_lists) pauses
        × Reaches "daq.resume" (backwards s.xmlrpc_client_lists) resumes
        × (t ≡ record s { system_pause_requested = false })
  unfolding send_pause_and_resume
  send_pause_and_resume-Reaches answers s = (
    _,
    _,
    refl,
    call_forwards-Reaches answers "daq.pause" s.xmlrpc_client_lists 0,
    call_backwards-Reaches answers "daq.resume" s.xmlrpc_client_lists _,
    refl,
  )
