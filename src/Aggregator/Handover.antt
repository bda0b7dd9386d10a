-- ===== src/Aggregator/Handover.antt =====
-- What the data logger hands to the online monitor through the segment of
-- artdaq/Application/MPI2/AggregatorCore.cc.
use fnal_artdaq.Base.{
  List, ap, ◌++◌, take, drop, length, take-append, length-take-drop, ℕ, zero, suc, ◌+◌, ◌*◌, ◌%◌,
  ◌≤◌, ◌<◌, ◌≡◌, ◌≢◌, ◌⊎◌, refl, true, false, arith,
}
use fnal_artdaq.ArtdaqCore.{ArtdaqCore}
use fnal_artdaq.FragCounter.{size_t_mod}
use fnal_artdaq.RHandles.Receive.{from}
use fnal_artdaq.Aggregator.SharedMemory.{
  filled, copied_out, Segment, Copied, wait_while, waited, fits, skips, noted, copy_fragment,
  receive_fragment,
}

wait_while-ready :
    (busy : ℕ) (others : ℕ → Segment → Segment) (left n : ℕ) (seg : Segment)
    → seg.has_fragment ≢ busy
    → wait_while busy others left n seg ≡ seg
unfolding wait_while
wait_while-ready busy others zero n seg h = refl
wait_while-ready busy others (suc left) n seg h = ground (arith, h)

waited-free :
    (others : ℕ → Segment → Segment) (timeout : ℕ) (seg : Segment)
    → seg.has_fragment ≡ 0
    → waited others timeout seg ≡ seg
unfolding waited
waited-free others timeout seg free =
    ground (arith, wait_while-ready 1 others 10 0 seg (λ e. omega (arith, e, free)))

module _ {F E : Type 0} (core : ArtdaqCore F E) where
  -- A segment of at least four words, whose size in bytes is a `size_t`: a fragment that passes the
  -- test is copied within the segment, behind the two words at its beginning.
  pub fits_lem :
      (max_words : ℕ) (f : F)
      → 4 ≤ max_words
      → max_words * 8 < size_t_mod
      → core.size f * 8 < size_t_mod
      → ((fits core max_words f ≡ true) × (core.size f * 8 + 32 < max_words * 8))
        ⊎ ((fits core max_words f ≡ false) × (max_words * 8 ≤ core.size f * 8 + 32))
  unfolding fits
  fits_lem max_words f four fine small = ground arith

  copy_fragment-free :
      (others : ℕ → Segment → Segment) (max_words timeout count : ℕ) (f : F) (c : Copied)
      (seg : Segment)
      → seg.has_fragment ≡ 0
      → skips core true c f ≡ false
      → core.type_code f ≢ core.invalid_type
      → fits core max_words f ≡ true
      → copy_fragment core others max_words true f timeout c count seg
        ≡ (noted core c f, (count + 1) % size_t_mod, filled core f seg)
  unfolding copy_fragment
  copy_fragment-free others max_words timeout count f c seg free new valid small =
      ground (arith, free, new, valid, small, waited-free others timeout seg free)

  copied_out-filled :
      (f : F) (seg : Segment)
      → copied_out core (filled core f seg)
        ≡ core.of_words
            (core.words f ++ take core.header_size (drop (core.size f) seg.fragment_innards))
  unfolding copied_out
  copied_out-filled f seg = ap core.of_words (
      take-append (core.words f) core.header_size (core.size f)
        (drop (core.size f) seg.fragment_innards) (core.length-words f))

  receive_fragment-filled :
      (others : ℕ → Segment → Segment) (first_rank : ℕ) (f : F) (seg : Segment)
      → receive_fragment core others first_rank true (filled core f seg) ≡ (
        from first_rank (
            core.of_words
              (core.words f ++ take core.header_size (drop (core.size f) seg.fragment_innards))),
        record (filled core f seg) { has_fragment = 0 },
      )
  unfolding receive_fragment
  receive_fragment-filled others first_rank f seg =
      rw
        (
          wait_while-ready 0 others 10 0 (filled core f seg) (λ e. omega (arith, e)),
          copied_out-filled f seg,
        )
        refl

  length-extra :
      (f : F) (seg : Segment)
      → core.size f + core.header_size ≤ length seg.fragment_innards
      → length (take core.header_size (drop (core.size f) seg.fragment_innards)) ≡ core.header_size
  length-extra f seg long =
      length-take-drop core.header_size (core.size f) seg.fragment_innards long

  -- A fragment that has a valid type and fits, and is not one that an earlier copy makes
  -- superfluous, goes through a free segment: the data logger copies it, whatever the other process
  -- does meanwhile, and the online monitor gets a fragment from the first rank, and leaves the
  -- segment free again. The words that it gets are those of the fragment, with its type and IDs, but
  -- also as many words more as a header has: what stood behind the fragment in the segment, if the
  -- segment is that long.
  pub receive_fragment-copy_fragment :
      (others others' : ℕ → Segment → Segment) (max_words timeout first_rank count : ℕ) (f : F)
      (c : Copied) (seg : Segment)
      → seg.has_fragment ≡ 0
      → skips core true c f ≡ false
      → core.type_code f ≢ core.invalid_type
      → fits core max_words f ≡ true
      → core.size f + core.header_size ≤ length seg.fragment_innards
      → let (c', count', t) = copy_fragment core others max_words true f timeout c count seg in
        (g : F) × (extra : List ℕ) × (receive_fragment core others' first_rank true t
          ≡ (from first_rank g, record t { has_fragment = 0 }))
        × (g ≡ core.of_words (core.words f ++ extra))
        × (extra ≡ take core.header_size (drop (core.size f) seg.fragment_innards))
        × (length extra ≡ core.header_size)
        × (core.type_code g ≡ core.type_code f)
        × (core.sequence_id g ≡ core.sequence_id f)
        × (core.fragment_id g ≡ core.fragment_id f)
        × (c' ≡ noted core c f)
        × (count' ≡ (count + 1) % size_t_mod)
  receive_fragment-copy_fragment others others' max_words timeout first_rank count f c seg free new
        valid small long =
      let copied = copy_fragment-free others max_words timeout count f c seg free new valid small in
      let extra = take core.header_size (drop (core.size f) seg.fragment_innards) in
      rw copied (
        core.of_words (core.words f ++ extra),
        extra,
        receive_fragment-filled others' first_rank f seg,
        refl,
        refl,
        length-extra f seg long,
        core.type_code-of_words f extra,
        core.sequence_id-of_words f extra,
        core.fragment_id-of_words f extra,
        refl,
        refl,
      )
