-- ===== src/SHandles.antt =====
-- artdaq/DAQrate/SHandles.hh and SHandles.cc: fragments are sent to the ranks of a range, round
-- robin or to all. MPI is the environment: `tests n` is the flag that the n-th MPI_Test of a pending
-- request gives, and `sent` lists what was handed to MPI_Send or MPI_Isend.
pub mod Sending
pub mod Counting
pub mod Lifetime
pub mod Closing
use fnal_artdaq.Base.{
  ℕ, zero, suc, ◌+◌, ◌-◌, ◌%◌, List, [], ◌∷◌, ◌++◌, Bool, true, false, not, Option, none, some,
  Outcome, ok, fault, logic_error, unimplemented, out_of_bounds, division_by_zero, out_of_fuel,
  or_fault, require, ◌>>=◌, ◌>>◌, ltb, ◌==◌, if◌then◌else◌, get_elem?, set, replicate,
}
use fnal_artdaq.ArtdaqCore.{ArtdaqCore}
use fnal_artdaq.FragCounter.{FragCounter, size_t_mod, inc_slot, slot_count}
use fnal_artdaq.FragCounter

-- A request is `true` where it is MPI_REQUEST_NULL. `tests_made` numbers the calls of MPI_Test.
pub record SHandles (F : Type 0) : Type 0 where
  pub buffer_count : ℕ
  pub max_payload_size : ℕ
  pub dest_count : ℕ
  pub dest_start : ℕ
  pub pos : ℕ
  pub sent_frag_count : FragCounter
  pub broadcast_sends : Bool
  pub synchronous_sends : Bool
  pub reqs : List Bool
  pub payload : List (Option F)
  pub sent : List (ℕ × F)
  pub tests_made : ℕ

unfoldable pub new : {F : Type 0} → ℕ → ℕ → ℕ → ℕ → Bool → Bool → SHandles F
new buffer_count max_payload_size dest_count dest_start broadcast synchronous = record {
  buffer_count = buffer_count;
  max_payload_size = max_payload_size;
  dest_count = dest_count;
  dest_start = dest_start;
  pos = 0;
  sent_frag_count = FragCounter.new dest_count dest_start;
  broadcast_sends = broadcast;
  synchronous_sends = synchronous;
  reqs = replicate buffer_count true;
  payload = replicate buffer_count none;
  sent = [];
  tests_made = 0;
}

unfoldable pub calc_dest : {F : Type 0} → SHandles F → ℕ → Outcome ℕ
calc_dest s sequence_id = do
  require (not (s.dest_count == 0)) division_by_zero
  ok ((sequence_id % s.dest_count + s.dest_start) % size_t_mod)

unfoldable pub count : {F : Type 0} → SHandles F → ℕ
count s = FragCounter.count s.sent_frag_count

-- `findAvailable`, for a number of rounds. MPI_Test of a null request gives true at once; a request
-- that it finds complete becomes null.
unfoldable pub find_available :
    {F : Type 0} → (ℕ → Bool) → ℕ → SHandles F → Outcome (ℕ × SHandles F)
find_available tests zero s = fault out_of_fuel
find_available tests (suc rounds) s =
    let next = (s.pos + 1) % s.buffer_count in
    let again =
      find_available tests rounds (record s { pos = next; tests_made = s.tests_made + 1 }) in
    or_fault (get_elem? s.reqs s.pos) out_of_bounds >>= λ null.
    if null
    then ok (s.pos, record s { pos = next })
    else if tests s.tests_made
    then ok (
      s.pos,
      record s { pos = next; tests_made = s.tests_made + 1; reqs = set s.reqs s.pos true },
    )
    else again

-- `waitAll`: MPI_Waitall leaves every request null.
unfoldable pub wait_all : {F : Type 0} → SHandles F → SHandles F
wait_all s = record s { reqs = replicate s.buffer_count true }

module _ {F E : Type 0} (core : ArtdaqCore F E) (tests : ℕ → Bool) (rounds : ℕ) where
  unfoldable pub send_frag_to : F → ℕ → SHandles F → Outcome (SHandles F)
  send_frag_to f dest s = do
    require (not (ltb s.max_payload_size (core.data_size f))) unimplemented
    (buffer_idx, t) ← find_available tests rounds s
    ok (record t {
      payload = set t.payload buffer_idx (some f);
      sent = t.sent ++ (dest, f) ∷ [];
      reqs = if t.synchronous_sends then t.reqs else set t.reqs buffer_idx false;
    })

  -- A send and the count of it.
  unfoldable pub send_counted : F → ℕ → SHandles F → Outcome (SHandles F)
  send_counted f dest s = do
    t ← send_frag_to f dest s
    counter ← inc_slot t.sent_frag_count dest
    ok (record t { sent_frag_count = counter })

  -- The loop over the destinations from `dest` on, of which so many are left.
  unfoldable pub broadcast : F → ℕ → ℕ → SHandles F → Outcome (SHandles F)
  broadcast f zero dest s = ok s
  broadcast f (suc left) dest s =
      send_counted f dest s >>= broadcast f left ((dest + 1) % size_t_mod)

  -- The result is the value of `dest` at the end.
  unfoldable pub send_fragment : F → SHandles F → Outcome (ℕ × SHandles F)
  send_fragment f s =
      require (not (core.type_code f == core.end_of_data)) logic_error
      >> (if s.broadcast_sends
          then (broadcast f s.dest_count s.dest_start s
              >>= (λ t. ok ((s.dest_start + s.dest_count) % size_t_mod, t)))
          else (calc_dest s (core.sequence_id f)
              >>= (λ dest. send_counted f dest s >>= (λ t. ok (dest, t)))))

  unfoldable pub send_eod_frag : ℕ → ℕ → SHandles F → Outcome (SHandles F)
  send_eod_frag dest n_fragments s = send_frag_to (core.eod_frag n_fragments) dest s

  unfoldable pub send_eods : ℕ → ℕ → SHandles F → Outcome (SHandles F)
  send_eods zero dest s = ok s
  send_eods (suc left) dest s = do
    n ← slot_count s.sent_frag_count dest
    t ← send_eod_frag dest n s
    send_eods left ((dest + 1) % size_t_mod) t

  -- The destructor: an end-of-data fragment with its count for every destination.
  unfoldable pub close : SHandles F → Outcome (SHandles F)
  close s = do t ← send_eods s.dest_count s.dest_start s; ok (wait_all t)
