-- ===== src/GenToArt/Filing.antt =====
-- Fragments with rising IDs in the queues of `ThrottledGenerator` of tools/genToArt.cc.
use fnal_artdaq.Base.{
  ℕ, suc, ◌≤◌, ◌<◌, ◌≡◌, refl, ap, sym, ◌∙◌, List, [], ◌∷◌, ◌++◌, map, append_assoc, append-nil,
  none, ok, arith,
}
use fnal_artdaq.ArtdaqCore.{ArtdaqCore}
use fnal_artdaq.OrderedMap.{find, put}
use fnal_artdaq.GenToArt.Throttled.{FragmentGenerator, queue_of, pop_each, store_each}

-- Numbers that rise, from `b` on.
abbrev pub Rising : ℕ → List ℕ → Type 0
Rising b [] = Unit
Rising b (k ∷ ks) = (b ≤ k) × Rising (suc k) ks

-- A map whose queues are empty.
abbrev pub drained : {F : Type 0} → List ℕ → List (ℕ × List F)
drained [] = []
drained (k ∷ ks) = (k, []) ∷ drained ks

module _ {G F E : Type 0} (core : ArtdaqCore F E) (v : FragmentGenerator G F) where
  abbrev pub ids_of : List F → List ℕ
  ids_of fs = map core.fragment_id fs

  -- Each fragment alone in its queue.
  abbrev pub filed : List F → List (ℕ × List F)
  filed [] = []
  filed (f ∷ fs) = (core.fragment_id f, f ∷ []) ∷ filed fs

  -- Entries whose keys are below `k`.
  abbrev pub Below : ℕ → List (ℕ × List F) → Type 0
  Below k [] = Unit
  Below k ((j, q) ∷ m) = (j < k) × Below k m

  find-Below : (k : ℕ) (m n : List (ℕ × List F)) → Below k m → find k (m ++ n) ≡ find k n
  unfolding find
  find-Below k [] n h = refl
  find-Below k ((j, q) ∷ m) n h = ground (arith, h.0, find-Below k m n h.1)

  put-Below :
      (k : ℕ) (q : List F) (m n : List (ℕ × List F)) → Below k m → put k q (m ++ n) ≡ m ++ put k q n
  unfolding put
  put-Below k q [] n h = refl
  put-Below k q ((j, w) ∷ m) n h = ground (arith, h.0, put-Below k q m n h.1)

  find-drained : (k : ℕ) (ks : List ℕ) → queue_of (find {V = List F} k (drained (k ∷ ks))) ≡ []
  unfolding find
  find-drained k ks = ground arith

  put-drained :
      (k : ℕ) (q : List F) (ks : List ℕ) → put k q (drained (k ∷ ks)) ≡ (k, q) ∷ drained ks
  unfolding put
  put-drained k q ks = ground arith

  Below-mono : (j k : ℕ) (m : List (ℕ × List F)) → j ≤ k → Below j m → Below k m
  Below-mono j k [] le h = tt
  Below-mono j k ((i, q) ∷ m) le h = (omega (arith, h.0), Below-mono j k m le h.1)

  Below-one :
      (k : ℕ) (q : List F) (m : List (ℕ × List F)) → Below k m → Below (suc k) (m ++ (k, q) ∷ [])
  Below-one k q [] h = (omega arith, tt)
  Below-one k q ((i, w) ∷ m) h = (omega (arith, h.0), Below-one k q m h.1)

  put_next :
      (k : ℕ) (f : F) (ks : List ℕ) (m : List (ℕ × List F))
      → Below k m
      → put k (queue_of (find k (m ++ drained (k ∷ ks))) ++ f ∷ []) (m ++ drained (k ∷ ks))
        ≡ (m ++ (k, f ∷ []) ∷ []) ++ drained ks
  put_next k f ks m h =
      rw
        (
          find-Below k m (drained (k ∷ ks)) h,
          find-drained k ks,
          put-Below k (f ∷ []) m (drained (k ∷ ks)) h,
          put-drained k (f ∷ []) ks,
        )
        (sym (append_assoc m ((k, f ∷ []) ∷ []) (drained ks)))

  find-absent : (k : ℕ) (m : List (ℕ × List F)) → Below k m → find k m ≡ none
  unfolding find
  find-absent k m h = ap (find k) (sym (append-nil m)) ∙ find-Below k m [] h

  put-absent :
      (k : ℕ) (q : List F) (m : List (ℕ × List F)) → Below k m → put k q m ≡ m ++ (k, q) ∷ []
  unfolding put
  put-absent k q m h = ap (put k q) (sym (append-nil m)) ∙ put-Below k q m [] h

  -- Into a map whose remaining queues are empty, or not there, the fragments go each into its own.
  pub store_each-drained :
      (fs : List F) (b : ℕ) (m : List (ℕ × List F))
      → Rising b (ids_of fs)
      → Below b m
      → store_each core v fs (m ++ drained (ids_of fs)) ≡ m ++ filed fs
  unfolding store_each
  store_each-drained [] b m r h = refl
  store_each-drained (f ∷ fs) b m (le, r) h =
      let k = core.fragment_id f in
      let low = Below-mono b k m le h in
      ap (store_each core v fs) (put_next k f (map core.fragment_id fs) m low)
      ∙ store_each-drained fs (suc k) (m ++ (k, f ∷ []) ∷ []) r (Below-one k (f ∷ []) m low)
      ∙ append_assoc m ((k, f ∷ []) ∷ []) (filed fs)

  pub store_each-absent :
      (fs : List F) (b : ℕ) (m : List (ℕ × List F))
      → Rising b (ids_of fs)
      → Below b m
      → store_each core v fs m ≡ m ++ filed fs
  unfolding store_each
  store_each-absent [] b m r h = sym (append-nil m)
  store_each-absent (f ∷ fs) b m (le, r) h =
      let k = core.fragment_id f in
      let low = Below-mono b k m le h in
      rw (find-absent k m low, put-absent k (f ∷ []) m low)
        (store_each-absent fs (suc k) (m ++ (k, f ∷ []) ∷ []) r (Below-one k (f ∷ []) m low)
          ∙ append_assoc m ((k, f ∷ []) ∷ []) (filed fs))

  pub pop_each-filed : (fs : List F) → pop_each (filed fs) ≡ ok (fs, drained (ids_of fs))
  unfolding pop_each
  pop_each-filed [] = refl
  pop_each-filed (f ∷ fs) = rw (pop_each-filed fs) refl
