-- ===== src/RHandles.antt =====
-- artdaq/DAQrate/RHandles.hh and RHandles.cc: fragments are received from the ranks of a range,
-- until the end-of-data fragment of each source and as many fragments as it announces have come.
-- MPI is the environment: an arrival is a completed receive, with the buffer, the source and the
-- fragment; `polls n` is what the n-th MPI_Testsome of a call finds, `waited` what its MPI_Waitany
-- finds, and `cancels i` tells whether MPI_Cancel succeeds on the request of the buffer `i`.
pub mod Receive
pub mod Next
pub mod Serving
pub mod Reposting
pub mod Taking
pub mod Opening
pub mod Accounts
pub mod Accounting
pub mod Start
use fnal_artdaq.Base.{
  leb, ◌&&◌, ℕ, zero, suc, ◌+◌, ◌-◌, ◌*◌, ◌/◌, ◌%◌, List, [], ◌∷◌, ◌++◌, Bool, true, false, not,
  ◌||◌, Option, none, some, Outcome, ok, fault, logic_error, configuration, out_of_bounds,
  assertion, out_of_fuel, or_fault, require, ◌>>=◌, ◌>>◌, ltb, ◌==◌, if◌then◌else◌, get_elem?, set,
  replicate, length,
}
use fnal_artdaq.ArtdaqCore.{ArtdaqCore}
use fnal_artdaq.FragCounter.{FragCounter, size_t_mod, inc_slot, slot_count}
use fnal_artdaq.FragCounter

-- `status_t`
pub data Status : Type 0 where
  sending pending done : Status

abbrev pub is_done : Status → Bool
is_done done = true
is_done _ = false

abbrev pub is_pending : Status → Bool
is_pending pending = true
is_pending _ = false

-- `which` is `none` for MPI_UNDEFINED.
pub record Arrival (F : Type 0) : Type 0 where
  pub which : Option ℕ
  pub source : ℕ
  pub fragment : F

-- A request is `true` where it is MPI_REQUEST_NULL; a source is `none` where it is MPI_ANY_SOURCE.
-- `ready` is what MPI_Testsome found and no call has taken yet. The contents of the buffers come
-- with the arrivals.
pub record RHandles (F : Type 0) : Type 0 where
  pub buffer_count : ℕ
  pub max_payload_size : ℕ
  pub src_count : ℕ
  pub src_start : ℕ
  pub recv_frag_count : FragCounter
  pub src_status : List Status
  pub expected_count : List ℕ
  pub reqs : List Bool
  pub req_sources : List (Option ℕ)
  pub last_source_posted : Option ℕ
  pub ready : List (Arrival F)

abbrev pub any_active : List Status → Bool
any_active [] = false
any_active (a ∷ rest) = not (is_done a) || any_active rest

unfoldable pub any_source_active : {F : Type 0} → RHandles F → Bool
any_source_active s = any_active s.src_status

unfoldable pub sources_active : {F : Type 0} → RHandles F → ℕ
sources_active s = elim s.src_status [
  | [] ↦ 0
  | a ∷ (l → rest) ↦ (if is_done a then 0 else 1) + rest
]

unfoldable pub sources_pending : {F : Type 0} → RHandles F → ℕ
sources_pending s = elim s.src_status [
  | [] ↦ 0
  | a ∷ (l → rest) ↦ (if is_pending a then 1 else 0) + rest
]

-- `post_`
unfoldable pub post : {F : Type 0} → ℕ → ℕ → RHandles F → RHandles F
post buf src s = record s {
  reqs = set s.reqs buf false;
  req_sources = set s.req_sources buf (some src);
  last_source_posted = some src;
}

-- The constructor's loop, from the buffer `i` on.
unfoldable pub post_all : {F : Type 0} → ℕ → ℕ → RHandles F → RHandles F
post_all zero i s = s
post_all (suc left) i s = post_all left (i + 1) (post i (i % s.src_count + s.src_start) s)

-- The constructor's initializers.
unfoldable pub initial : {F : Type 0} → ℕ → ℕ → ℕ → ℕ → RHandles F
initial buffer_count max_payload_size src_count src_start = record {
  buffer_count = buffer_count;
  max_payload_size = max_payload_size;
  src_count = src_count;
  src_start = src_start;
  recv_frag_count = FragCounter.new src_count src_start;
  src_status = replicate src_count sending;
  expected_count = replicate src_count 0;
  reqs = replicate buffer_count true;
  req_sources = replicate buffer_count none;
  last_source_posted = none;
  ready = [];
}

unfoldable pub new : {F : Type 0} → ℕ → ℕ → ℕ → ℕ → Outcome (RHandles F)
new buffer_count max_payload_size src_count src_start = do
  require (not (src_count == 0)) configuration
  require (not (buffer_count == 0)) configuration
  ok (post_all buffer_count 0 (initial buffer_count max_payload_size src_count src_start))

-- `indexFromSource_`. Below `src_start` the code's subtraction wraps around to an index that is out
-- of bounds; `mark`, where an index is first used, excludes it.
unfoldable pub index_from_source : {F : Type 0} → RHandles F → ℕ → ℕ
index_from_source s src = src - s.src_start

-- The loop of `nextSource_` from the index `result` on, for a number of rounds.
unfoldable pub next_from : List Status → ℕ → ℕ → ℕ → ℕ → Outcome (Option ℕ)
next_from statuses src_count last_index zero result = fault out_of_fuel
next_from statuses src_count last_index (suc rounds) result =
    let again = next_from statuses src_count last_index rounds ((result + 1) % src_count) in
    if result == last_index
    then ok none
    else (or_fault (get_elem? statuses result) out_of_bounds >>= λ status.
        if is_done status then again else ok (some result))

-- `nextSource_`, whose loop ends within `src_count` rounds.
unfoldable pub next_source : {F : Type 0} → RHandles F → Outcome (Option ℕ)
next_source s = do
  last ← or_fault s.last_source_posted assertion
  next ←
      next_from s.src_status s.src_count (index_from_source s last) s.src_count
        ((index_from_source s last + 1) % s.src_count)
  ok (elim next [ none ↦ none | some index ↦ some (index + s.src_start) ])

-- `cancelReq_` with `blocking_wait`: MPI_Wait leaves the request null.
unfoldable pub cancel_req : {F : Type 0} → (ℕ → Bool) → ℕ → RHandles F → Outcome (RHandles F)
cancel_req cancels buf s = do
  require (cancels buf) logic_error
  ok (record s { reqs = set s.reqs buf true })

-- What `recvFragment` and `cancelAndRepost_` do with a buffer whose source is done.
unfoldable pub repost : {F : Type 0} → ℕ → RHandles F → Outcome (RHandles F)
repost buf s = do
  next ← next_source s
  elim next [
    | none ↦ ok (record s { req_sources = set s.req_sources buf none })
    | some src ↦ ok (post buf src s)
  ]

abbrev pub is_source : ℕ → Option ℕ → Bool
is_source src none = false
is_source src (some posted) = src == posted

-- `cancelAndRepost_`, from the buffer `i` on.
unfoldable pub cancel_and_repost :
    {F : Type 0} → (ℕ → Bool) → ℕ → ℕ → ℕ → RHandles F → Outcome (RHandles F)
cancel_and_repost cancels src zero i s = ok s
cancel_and_repost cancels src (suc left) i s = do
  posted ← or_fault (get_elem? s.req_sources i) out_of_bounds
  t ← (if is_source src posted then cancel_req cancels i s >>= repost i else ok s)
  cancel_and_repost cancels src left (i + 1) t

-- The switch on the source's status.
unfoldable pub check : {F : Type 0} → ℕ → RHandles F → Outcome (RHandles F)
check source s =
    let index = index_from_source s source in
    or_fault (get_elem? s.src_status index) out_of_bounds >>= λ status. elim status [
      | sending ↦ ok s
      | pending ↦ do
        count ← slot_count s.recv_frag_count source
        expected ← or_fault (get_elem? s.expected_count index) out_of_bounds
        ok (if count == expected then record s { src_status = set s.src_status index done } else s)
      | done ↦ fault logic_error
    ]

module _ {F E : Type 0} (core : ArtdaqCore F E) where
  -- "Fragment accounting" in `recvFragment`: the marks of an end-of-data fragment, or the count.
  unfoldable pub mark : ℕ → F → RHandles F → Outcome (RHandles F)
  mark source output s =
      let index = index_from_source s source in
      if core.type_code output == core.end_of_data
      then (require (leb s.src_start source && ltb index (length s.src_status)) out_of_bounds
          >> ok (record s {
            src_status = set s.src_status index pending;
            expected_count = set s.expected_count index (core.first_word output);
          }))
      else (inc_slot s.recv_frag_count source
          >>= (λ counter. ok (record s { recv_frag_count = counter })))

  unfoldable pub account : ℕ → F → RHandles F → Outcome (RHandles F)
  account source output s = mark source output s >>= check source
