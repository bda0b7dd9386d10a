-- ===== src/GenToArt/Stored.antt =====
-- The fragments that `ThrottledGenerator` of tools/genToArt.cc holds back and hands out.
use fnal_artdaq.Base.{
  ℕ, zero, suc, ◌≤◌, ◌<◌, ◌≡◌, refl, ap, sym, ◌∙◌, List, [], ◌∷◌, ◌++◌, append_assoc, append-nil,
  Bool, true, false, ◌&&◌, Option-cases, inl, inr, All-append_one, ok, Ends, faulted, ended,
  Ends-bind, Ends-if, Ends-map, if◌then◌else◌, ◌==◌, length, All, arith,
}
use fnal_artdaq.ArtdaqCore.{ArtdaqCore}
use fnal_artdaq.OrderedMap.{find, put}
use fnal_artdaq.OrderedMap.Laws.{Above, put-Above, put-All, find-All, find-put}
use fnal_artdaq.GenToArt.Throttled.{
  FragmentGenerator, ThrottledGenerator, is_empty, queue_of, has_stored, pop_each, poll_generator,
  store_each, generate_fragments, get_next,
}

module _ {G F E : Type 0} (core : ArtdaqCore F E) (v : FragmentGenerator G F) where
  -- The fragments with an ID.
  abbrev pub of_id : ℕ → List F → List F
  of_id i [] = []
  of_id i (f ∷ fs) = if core.fragment_id f == i then f ∷ of_id i fs else of_id i fs

  -- The map is in order, and every fragment stands in the queue of its ID.
  abbrev pub IsFiled : ℕ × List F → Type 0
  IsFiled (k, q) = All (λ f. core.fragment_id f ≡ k) q

  abbrev pub IsSorted : ℕ → List (ℕ × List F) → Type 0
  IsSorted b m = Above b m × All IsFiled m

  -- What `pop_each` hands out and leaves, of a map whose keys are at least `b`.
  abbrev Popped : ℕ → List (ℕ × List F) → List F × List (ℕ × List F) → Type 0
  Popped b m r =
      IsSorted b r.1
      × ((i : ℕ)
          → (of_id i r.0 ++ queue_of (find i r.1) ≡ queue_of (find i m))
            × (length (of_id i r.0) ≤ 1)
            × (i < b → of_id i r.0 ≡ []))

  pop_each-Popped : (b : ℕ) (m : List (ℕ × List F)) → IsSorted b m → Ends (Popped b m) (pop_each m)
  unfolding pop_each find
  pop_each-Popped b [] h = ended (h, λ i. (refl, omega arith, λ less. refl))
  pop_each-Popped b ((k, []) ∷ m) h = faulted
  pop_each-Popped b ((k, f ∷ q) ∷ m) ((le, above), (filed, all)) =
      Ends-bind (pop_each-Popped (suc k) m (above, all)) λ r (sorted, each).
        ended (((le, sorted.0), (filed.1, sorted.1)), λ i. ground (arith, filed.0, each i))

  queue_of-IsFiled :
      (i : ℕ) (m : List (ℕ × List F)) → All IsFiled m → IsFiled (i, queue_of (find i m))
  queue_of-IsFiled i m h = elim (Option-cases (find i m)) [
    | inl e ↦ rw e tt
    | inr (q, e) ↦ rw e (find-All IsFiled i m h e)
  ]

  -- The map after one fragment is stored.
  abbrev stored_one : F → List (ℕ × List F) → List (ℕ × List F)
  stored_one f m = let id = core.fragment_id f in put id (queue_of (find id m) ++ f ∷ []) m

  stored_one-IsSorted : (f : F) (m : List (ℕ × List F)) → IsSorted 0 m → IsSorted 0 (stored_one f m)
  stored_one-IsSorted f m (above, all) =
      let id = core.fragment_id f in
      (
        put-Above id _ 0 m (omega arith) above,
        put-All IsFiled id _ m
            (All-append_one _ (queue_of (find id m)) (queue_of-IsFiled id m all) refl) all,
      )

  stored_one-queue :
      (f : F) (m : List (ℕ × List F))
      → IsSorted 0 m
      → (i : ℕ) → queue_of (find i (stored_one f m)) ≡ queue_of (find i m) ++ of_id i (f ∷ [])
  stored_one-queue f m h i =
      rw
        (find-put (core.fragment_id f) i (queue_of (find (core.fragment_id f) m) ++ f ∷ []) 0 m h.0)
        (ground (arith, append-nil (queue_of (find i m))))

  store_each-queue :
      (fs : List F) (m : List (ℕ × List F))
      → IsSorted 0 m
      → IsSorted 0 (store_each core v fs m)
        × ((i : ℕ) → queue_of (find i (store_each core v fs m)) ≡ queue_of (find i m) ++ of_id i fs)
  unfolding store_each
  store_each-queue [] m h = (h, λ i. sym (append-nil _))
  store_each-queue (f ∷ fs) m h =
      let (sorted, each) = store_each-queue fs (stored_one f m) (stored_one-IsSorted f m h) in
      (
        sorted,
        λ i.
            rw (each i, stored_one-queue f m h i)
              (ground (arith, append_assoc (queue_of (find i m)) (of_id i (f ∷ [])) (of_id i fs))),
      )

  of_id-append : (i : ℕ) (xs ys : List F) → of_id i (xs ++ ys) ≡ of_id i xs ++ of_id i ys
  of_id-append i [] ys = refl
  of_id-append i (x ∷ xs) ys = ground (arith, of_id-append i xs ys)

  module _ (log : G → List F)
      (logs : (g : G) → Ends (λ r. log r.2 ≡ log g ++ r.1) (v.get_next g)) where
    poll_generator-log :
        (fuel : ℕ) (g : G) → Ends (λ r. log r.2 ≡ log g ++ r.1) (poll_generator v fuel g)
    unfolding poll_generator
    poll_generator-log zero g = faulted
    poll_generator-log (suc fuel) g =
        Ends-bind (logs g) λ r e. again r.0 r.1 r.2 e (poll_generator-log fuel r.2)
      where
        again :
            (result : Bool) (out : List F) (h : G)
            → log h ≡ log g ++ out
            → Ends (λ r. log r.2 ≡ log h ++ r.1) (poll_generator v fuel h)
            → Ends
                (λ r. log r.2 ≡ log g ++ r.1)
                (if result && is_empty out then poll_generator v fuel h else ok (result, out, h))
        again true [] h e ih =
            Ends-map (λ r later. later ∙ ap (λ l. l ++ r.1) (e ∙ append-nil _)) ih
        again true (f ∷ fs) h e ih = ended e
        again false out h e ih = ended e

    -- What a call appends and leaves, after the generator has made some fragments: for each ID, the
    -- fragments with this ID keep their order, and at most one of them is handed out.
    abbrev pub Hands : ThrottledGenerator G F → List F → ThrottledGenerator G F → Type 0
    Hands t new_frags u =
        IsSorted 0 u.frags
        × ((made : List F) × (log u.generator ≡ log t.generator ++ made)
            × ((i : ℕ)
                → (of_id i new_frags ++ queue_of (find i u.frags)
                    ≡ queue_of (find i t.frags) ++ of_id i made)
                  × (length (of_id i new_frags) ≤ 1)))

    Hands-after :
        (t u w : ThrottledGenerator G F) (new_frags : List F)
        → Hands t [] u
        → Hands u new_frags w
        → Hands t new_frags w
    Hands-after t u w new_frags (sorted_u, (first, log_u, each_u)) (sorted, (later, log_w, each)) =
        (
          sorted,
          (
            first ++ later,
            log_w ∙ ap (λ l. l ++ later) log_u ∙ append_assoc _ first later,
            λ i. (
              (each i).0
                  ∙ ap (λ q. q ++ of_id i later) (each_u i).0
                  ∙ append_assoc _ (of_id i first) (of_id i later)
                  ∙ ap (λ l. queue_of (find i t.frags) ++ l) (sym (of_id-append i first later)),
              (each i).1,
            ),
          ),
        )

    generate_fragments-Hands :
        (fuel : ℕ) (t : ThrottledGenerator G F)
        → IsSorted 0 t.frags
        → Ends (λ r. Hands t [] r.1) (generate_fragments core v fuel t)
    unfolding generate_fragments
    generate_fragments-Hands fuel t h = Ends-bind (poll_generator-log fuel t.generator) λ r e.
        let (sorted, each) = store_each-queue r.1 t.frags h in
        ended (sorted, (r.1, e, λ i. (each i, omega arith)))

    -- The queues in order, and a log of what the generator has made so far: a call of `getNext` that
    -- does not fault hands out at most one fragment of each ID; for each ID, what it hands out, and
    -- then what it keeps back, are what was kept back before, and then what the generator made in
    -- the call, in this order. The queues stay in order.
    pub get_next-Hands :
        (fuel : ℕ) (t : ThrottledGenerator G F)
        → IsSorted 0 t.frags
        → Ends (λ r. Hands t r.1 r.2) (get_next core v fuel t)
    unfolding get_next
    get_next-Hands zero t h = faulted
    get_next-Hands (suc fuel) t h =
        Ends-if (has_stored t.frags)
          (Ends-bind (pop_each-Popped 0 t.frags h) λ r (sorted, each).
            ended (
              sorted,
              ([], sym (append-nil _), λ i. ((each i).0 ∙ sym (append-nil _), (each i).1)),
            ))
          (Ends-bind (generate_fragments-Hands (suc fuel) t h) λ r hands.
            Ends-if r.0
              (Ends-map (λ w later. Hands-after t r.1 w.2 w.1 hands later)
                (get_next-Hands fuel r.1 hands.0))
              (ended hands))
