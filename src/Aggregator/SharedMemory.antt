-- ===== src/Aggregator/SharedMemory.antt =====
-- artdaq/Application/MPI2/AggregatorCore.cc: the shared memory segment through which the data logger
-- hands fragments to the online monitor.
use fnal_artdaq.Base.{
  List, ◌++◌, take, drop, ℕ, zero, suc, ◌+◌, ◌-◌, ◌*◌, ◌%◌, Bool, true, not, ◌&&◌, ◌||◌, ltb, ◌==◌,
  if◌then◌else◌,
}
use fnal_artdaq.ArtdaqCore.{ArtdaqCore}
use fnal_artdaq.FragCounter.{size_t_mod}
use fnal_artdaq.RHandles.Receive.{Received, recv_timeout, from}

-- `ShmStruct`, with all the words of the segment that `fragmentInnards` is the beginning of.
pub record Segment : Type 0 where
  pub has_fragment : ℕ
  pub fragment_size_words : ℕ
  pub fragment_innards : List ℕ

-- The loop of a wait: at most so many sleeps, while the segment is in a state. `others n` is what
-- the other process does during the n-th sleep.
unfoldable pub wait_while : ℕ → (ℕ → Segment → Segment) → ℕ → ℕ → Segment → Segment
wait_while busy others zero n seg = seg
wait_while busy others (suc left) n seg =
    let later = wait_while busy others left (n + 1) (others n seg) in
    if seg.has_fragment == busy then later else seg

-- The flags of `process_fragments` for what has been copied.
pub record Copied : Type 0 where
  pub fragment : Bool
  pub esr : Bool
  pub eod : Bool

-- The wait in `copyFragmentToSharedMemory_`.
unfoldable pub waited : (ℕ → Segment → Segment) → ℕ → Segment → Segment
unfolding wait_while
waited others timeout_usec seg = if ltb 0 timeout_usec then wait_while 1 others 10 0 seg else seg

module _ {F E : Type 0} (core : ArtdaqCore F E) where
  -- The size in bytes is below that of the segment less that of a `ShmStruct`, in the arithmetic of
  -- `size_t`.
  unfoldable pub fits : ℕ → F → Bool
  fits max_words f =
      ltb (core.size f * 8 % size_t_mod)
        ((max_words * 8 % size_t_mod + size_t_mod - 32) % size_t_mod)

  -- The early returns of `copyFragmentToSharedMemory_`.
  unfoldable pub skips : Bool → Copied → F → Bool
  skips attached c f =
      c.fragment
      || (core.type_code f == core.end_of_subrun && c.esr
          || (core.type_code f == core.end_of_data && c.eod || not attached))

  -- The flags after a copy.
  unfoldable pub noted : Copied → F → Copied
  noted c f = record {
    fragment = true;
    esr = if core.type_code f == core.end_of_subrun then true else c.esr;
    eod = if core.type_code f == core.end_of_data then true else c.eod;
  }

  -- `memcpy` of the words of a fragment to the beginning of `fragmentInnards`, and the two members.
  abbrev pub filled : F → Segment → Segment
  filled f seg = record {
    has_fragment = 1;
    fragment_size_words = core.size f;
    fragment_innards = core.words f ++ drop (core.size f) seg.fragment_innards;
  }

  -- `copyFragmentToSharedMemory_`: the flags, `fragment_count_to_shm_` and the segment.
  unfoldable pub copy_fragment :
      (ℕ → Segment → Segment) → ℕ → Bool → F → ℕ → Copied → ℕ → Segment → Copied × ℕ × Segment
  unfolding fits skips noted waited
  copy_fragment others max_words attached f timeout_usec c count seg =
      let free = waited others timeout_usec seg in
      if skips attached c f
      then (c, count, seg)
      else if free.has_fragment == 0
          && (not (core.type_code f == core.invalid_type) && fits max_words f)
      then (noted c f, (count + 1) % size_t_mod, filled f free)
      else (c, count, free)

  -- `fragment.resize(shm_ptr_->fragmentSizeWords)`, which makes room for a payload of that many
  -- words behind a header, and a `memcpy` of as many words as the fragment then has, here only of
  -- those that lie within the segment.
  unfoldable pub copied_out : Segment → F
  copied_out seg =
      core.of_words (take (core.header_size + seg.fragment_size_words) seg.fragment_innards)

  -- `receiveFragmentFromSharedMemory_`, with `shm_ptr_` attached or not.
  unfoldable pub receive_fragment :
      (ℕ → Segment → Segment) → ℕ → Bool → Segment → Received F × Segment
  unfolding wait_while copied_out
  receive_fragment others first_rank attached seg =
      let seen = wait_while 0 others 10 0 seg in
      if attached
      then if seen.has_fragment == 1
        then (from first_rank (copied_out seen), record seen { has_fragment = 0 })
        else (recv_timeout, seen)
      else (recv_timeout, seg)
