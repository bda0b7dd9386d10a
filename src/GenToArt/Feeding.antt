-- ===== src/GenToArt/Feeding.antt =====
-- Generators of tools/genToArt.cc that give, in each call, one fragment of each of their IDs in
-- increasing order.
use fnal_artdaq.Base.{
  ℕ, ◌+◌, ◌<◌, ◌≡◌, ◌≢◌, ◌⊎◌, inl, inr, refl, ap, sym, subst, ◌∙◌, List, [], ◌∷◌, ◌++◌, map, true,
  false, ok, ◌>>=◌, length, length-append, length-map, All, All-append, arith,
}
use fnal_artdaq.ArtdaqCore.{ArtdaqCore}
use fnal_artdaq.GenToArt.{collect}
use fnal_artdaq.GenToArt.Throttled.{
  FragmentGenerator, ThrottledGenerator, has_stored, poll_generator, store_each, generate_fragments,
  get_next,
}
use fnal_artdaq.GenToArt.Filing.{
  Rising, drained, filed, store_each-drained, store_each-absent, pop_each-filed,
}

module _ {G F E : Type 0} (core : ArtdaqCore F E) (v : FragmentGenerator G F) where
  -- The generators of this file; `Fine` is what is true of them between calls.
  pub record Regular (Fine : G → Type 0) : Type 0 where
    pub gives :
        (g : G)
        → Fine g
        → (fs : List F) × ((h : G) × (v.get_next g ≡ ok (true, fs, h))
            × (map core.fragment_id fs ≡ v.fragment_ids g)
            × (v.fragment_ids h ≡ v.fragment_ids g)
            × Fine h)
    pub rises : (g : G) → Fine g → Rising 0 (v.fragment_ids g)
    pub some_ids : (g : G) → Fine g → 0 < length (v.fragment_ids g)
    pub valid_ids : (g : G) → Fine g → All (λ k. k ≢ core.invalid_fragment_id) (v.fragment_ids g)

  module _ (Fine : G → Type 0) (regular : Regular Fine) where
    abbrev pub IsReady : ThrottledGenerator G F → Type 0
    IsReady t =
        Fine t.generator
        × (t.num_frag_ids ≡ length (v.fragment_ids t.generator))
        × ((t.frags ≡ []) ⊎ (t.frags ≡ drained (v.fragment_ids t.generator)))

    -- One fragment of each ID.
    abbrev Serves : ℕ → ThrottledGenerator G F → Type 0
    Serves fuel t =
        (fs : List F) × ((u : ThrottledGenerator G F) × (get_next core v fuel t ≡ ok (true, fs, u))
          × (map core.fragment_id fs ≡ v.fragment_ids t.generator)
          × (u.num_frag_ids ≡ t.num_frag_ids)
          × IsReady u)

    store_each-filed :
        (t : ThrottledGenerator G F) (fs : List F)
        → IsReady t
        → map core.fragment_id fs ≡ v.fragment_ids t.generator
        → store_each core v fs t.frags ≡ filed core v fs
    store_each-filed t fs (fine, counts, inl none_yet) ids =
        ap (store_each core v fs) none_yet
        ∙ store_each-absent core v fs 0 []
            (subst (Rising 0) (sym ids) (regular.rises t.generator fine)) tt
    store_each-filed t fs (fine, counts, inr all_empty) ids =
        ap (store_each core v fs) (all_empty ∙ ap drained (sym ids))
        ∙ store_each-drained core v fs 0 []
            (subst (Rising 0) (sym ids) (regular.rises t.generator fine)) tt

    has_stored-drained :
        (m : List (ℕ × List F)) (ks : List ℕ) → (m ≡ []) ⊎ (m ≡ drained ks) → has_stored m ≡ false
    unfolding has_stored
    has_stored-drained m ks (inl e) = rw e refl
    has_stored-drained m [] (inr e) = rw e refl
    has_stored-drained m (k ∷ ks) (inr e) = rw e refl

    -- The generator after a call, with the fragments of the call in the queues.
    abbrev loaded : ThrottledGenerator G F → List F → G → ThrottledGenerator G F
    loaded t fs h = record t { generator = h; frags = filed core v fs }

    generate_fragments-loaded :
        (t : ThrottledGenerator G F) (fs : List F) (h : G)
        → IsReady t
        → v.get_next t.generator ≡ ok (true, fs, h)
        → map core.fragment_id fs ≡ v.fragment_ids t.generator
        → generate_fragments core v 2 t ≡ ok (true, loaded t fs h)
    unfolding generate_fragments poll_generator
    generate_fragments-loaded t [] h ready e ids =
        absurd (ground (arith, regular.some_ids t.generator ready.0, ap length ids))
    generate_fragments-loaded t (f ∷ fs) h ready e ids =
        rw (e, store_each-filed t (f ∷ fs) ready ids) refl

    -- The second step of `getNext` hands out what the first has stored.
    get_next-loaded :
        (t : ThrottledGenerator G F) (fs : List F) (h : G)
        → 0 < length fs
        → get_next core v 1 (loaded t fs h)
          ≡ ok (true, fs, record t { generator = h; frags = drained (map core.fragment_id fs) })
    unfolding get_next has_stored
    get_next-loaded t [] h pos = absurd (omega arith)
    get_next-loaded t (f ∷ fs) h pos =
        ap (λ r. r >>= λ q. ok (true, q.0, record t { generator = h; frags = q.1 }))
          (pop_each-filed core v (f ∷ fs))

    get_next-Serves : (t : ThrottledGenerator G F) → IsReady t → Serves 2 t
    unfolding get_next
    get_next-Serves t ready =
        let (fs, (h, e, ids, same_ids, fine)) = regular.gives t.generator ready.0 in
        let some_frags : 0 < length fs = ground (
          arith,
          regular.some_ids t.generator ready.0,
          ap length ids,
          length-map core.fragment_id fs,
        ) in
        (
          fs,
          (
            record t { generator = h; frags = drained (map core.fragment_id fs) },
            rw
                (
                  has_stored-drained t.frags (v.fragment_ids t.generator) ready.2,
                  generate_fragments-loaded t fs h ready e ids,
                )
                (get_next-loaded t fs h some_frags),
            ids,
            refl,
            (fine, ready.1 ∙ ap length (sym same_ids), inr (ap drained (ids ∙ sym same_ids))),
          ),
        )

    abbrev pub total_ids : List (ThrottledGenerator G F) → ℕ
    total_ids [] = 0
    total_ids (t ∷ ts) = t.num_frag_ids + total_ids ts

    -- One round of such generators.
    abbrev pub Rounds : List (ThrottledGenerator G F) → Type 0
    Rounds gens =
        (fs : List F) × ((later : List (ThrottledGenerator G F)) × (collect core v 2 gens
            ≡ ok (false, fs, later))
          × (length fs ≡ total_ids gens)
          × All (λ f. core.fragment_id f ≢ core.invalid_fragment_id) fs
          × (total_ids later ≡ total_ids gens)
          × All IsReady later)

    valid_ids_of :
        (fs : List F) (ks : List ℕ)
        → map core.fragment_id fs ≡ ks
        → All (λ k. k ≢ core.invalid_fragment_id) ks
        → All (λ f. core.fragment_id f ≢ core.invalid_fragment_id) fs
    valid_ids_of fs ks e h = go fs (subst (All λ k. k ≢ core.invalid_fragment_id) (sym e) h)
      where
        go :
            (l : List F)
            → All (λ k. k ≢ core.invalid_fragment_id) (map core.fragment_id l)
            → All (λ f. core.fragment_id f ≢ core.invalid_fragment_id) l
        go [] h = tt
        go (f ∷ l) h = (h.0, go l h.1)

    pub collect-Rounds : (gens : List (ThrottledGenerator G F)) → All IsReady gens → Rounds gens
    unfolding collect
    collect-Rounds [] ready = ([], ([], refl, refl, tt, refl, tt))
    collect-Rounds (t ∷ ts) ready =
        let (fs, (u, e, ids, num, ready_u)) = get_next-Serves t ready.0 in
        let (others, (us, e_us, count, valid, nums, ready_us)) = collect-Rounds ts ready.1 in
        (
          fs ++ others,
          (
            u ∷ us,
            rw (e, e_us) refl,
            omega (
              arith,
              length-append fs others,
              count,
              ready.0.1,
              ap (λ l. length l) ids,
              length-map core.fragment_id fs,
            ),
            All-append (λ f. core.fragment_id f ≢ core.invalid_fragment_id) fs others
                (valid_ids_of fs _ ids (regular.valid_ids t.generator ready.0.0)) valid,
            omega (arith, num, nums),
            (ready_u, ready_us),
          ),
        )
