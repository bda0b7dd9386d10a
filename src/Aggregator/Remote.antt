-- ===== src/Aggregator/Remote.antt =====
-- artdaq/Application/MPI2/AggregatorCore.cc, `sendPauseAndResume_`: the thread that has the whole
-- system pause and resume, so that new files are opened. The log messages and the sleeps are left
-- out, and so is a call that throws, which ends the process.
use Prim.Native.String.{String}
use fnal_artdaq.Base.{ℕ, zero, suc, ◌+◌, List, [], ◌∷◌, ◌++◌, Bool, false, if◌then◌else◌}
use fnal_artdaq.Aggregator.{AggregatorCore}

-- One `myClient.call`: the URL and the method.
pub record RemoteCall : Type 0 where
  pub url : String
  pub method : String

-- `answers n` is whether the answer to the n-th call contains "success". The functions return the
-- calls that are made and the number of the next one.
module _ (answers : ℕ → Bool) (method : String) where
  -- The loop on `iAttempt`, with so many attempts left.
  unfoldable pub attempt_loop : ℕ → String → ℕ → List RemoteCall × ℕ
  attempt_loop zero url n = ([], n)
  attempt_loop (suc left) url n =
      let (more, next) = attempt_loop left url (n + 1) in
      let call : RemoteCall = record { url = url; method = method } in
      if answers n then (call ∷ [], n + 1) else (call ∷ more, next)

  unfoldable pub call_group : List String → ℕ → List RemoteCall × ℕ
  unfolding attempt_loop
  call_group [] n = ([], n)
  call_group (url ∷ urls) n =
      let (calls, next) = attempt_loop 5 url n in
      let (more, last) = call_group urls next in (calls ++ more, last)

  -- The groups from the first to the last, and from the last to the first.
  unfoldable pub call_forwards : List (List String) → ℕ → List RemoteCall × ℕ
  unfolding call_group
  call_forwards [] n = ([], n)
  call_forwards (group ∷ groups) n =
      let (calls, next) = call_group group n in
      let (more, last) = call_forwards groups next in (calls ++ more, last)

  unfoldable pub call_backwards : List (List String) → ℕ → List RemoteCall × ℕ
  unfolding call_group
  call_backwards [] n = ([], n)
  call_backwards (group ∷ groups) n =
      let (more, next) = call_backwards groups n in
      let (calls, last) = call_group group next in (more ++ calls, last)

unfoldable pub send_pause_and_resume :
    {P F E : Type 0} → (ℕ → Bool) → AggregatorCore P F E → List RemoteCall × AggregatorCore P F E
unfolding call_forwards call_backwards
send_pause_and_resume answers s =
    let (pauses, next) = call_forwards answers "daq.pause" s.xmlrpc_client_lists 0 in
    let (resumes, last) = call_backwards answers "daq.resume" s.xmlrpc_client_lists next in
    (pauses ++ resumes, record s { system_pause_requested = false })
