-- ===== src/GenToArt/Complete.antt =====
-- The events that `process_data` of tools/genToArt.cc puts onto the queue.
use fnal_artdaq.Base.{
  ℕ, zero, suc, ◌+◌, ◌%◌, ◌<◌, ◌≡◌, refl, ap, sym, subst, ◌∙◌, List, [], ◌∷◌, ◌++◌, map,
  append_assoc, append-nil, Bool, true, false, Option, none, some, ok, if◌then◌else◌, length,
  length-map, All, arith, ◌==◌, inl, mod-eq_of_lt,
}
use fnal_artdaq.ArtdaqCore.{ArtdaqCore}
use fnal_artdaq.FragCounter.{size_t_mod}
use fnal_artdaq.OrderedMap.{find}
use fnal_artdaq.EventStore.{EventStore}
use fnal_artdaq.EventStore.Insert.{IsValid, held}
use fnal_artdaq.GenToArt.Throttled.{FragmentGenerator, ThrottledGenerator}
use fnal_artdaq.GenToArt.{
  Numbering, no_sequence_id, collect, insert_each, Progress, generates, event_loop,
}
use fnal_artdaq.GenToArt.Rounds.{numbered, HasIds, key_for, insert_each-Completes}

module _ {G F E : Type 0} (core : ArtdaqCore F E) (numbers : Numbering core)
    (v : FragmentGenerator G F) (accepts : ℕ → Bool) where
  -- Generators that give, in every round, a whole event together.
  pub record Feeds (polls num : ℕ) (Ready : List (ThrottledGenerator G F) → Type 0) : Type 0 where
    pub some_frags : 0 < num
    pub feeds :
        (gens : List (ThrottledGenerator G F))
        → Ready gens
        → (fs : List F) × ((later : List (ThrottledGenerator G F)) × (collect core v polls gens
              ≡ ok (false, fs, later))
            × (length fs ≡ num)
            × HasIds core numbers fs
            × Ready later)

  -- Whole events with the sequence IDs from `c` on.
  abbrev pub Numbered : ℕ → ℕ → List E → Type 0
  Numbered num c [] = Unit {0}
  Numbered num c (e ∷ es) =
      (length (core.contents e) ≡ num)
      × All (λ f. core.sequence_id f ≡ c) (core.contents e)
      × Numbered num (c + 1) es

  -- No event is under construction, and an event needs `num` fragments.
  abbrev pub IsIdle : ℕ → EventStore E → Type 0
  IsIdle num s =
      IsValid core s × (s.num_fragments_per_event ≡ num) × ((k : ℕ) → find k s.events ≡ none)

  -- The store `t` is `s` with so many whole events more on the queue.
  abbrev pub Made : ℕ → ℕ → ℕ → EventStore E → EventStore E → Type 0
  Made num c many s t =
      IsIdle num t
      × ((es : List E) × (t.queue ≡ s.queue ++ map some es)
          × (length es ≡ many)
          × Numbered num c es)

  map-numbered :
      (c : ℕ) (fs : List F)
      → c < numbers.sequence_id_limit
      → All (λ f. core.sequence_id f ≡ c) (map (numbered core numbers c) fs)
  map-numbered c [] low = tt
  map-numbered c (f ∷ fs) low = (numbers.sequence_id-set_sequence_id c f low, map-numbered c fs low)

  -- One round puts one whole event onto the queue.
  abbrev Round : ℕ → ℕ → ℕ → List F → EventStore E → Type 0
  Round num c n fs s =
      (m : ℕ) × ((t : EventStore E) × (insert_each core numbers accepts true c n no_sequence_id fs s
          ≡ ok (m, t))
        × IsIdle num t
        × ((e : E) × (t.queue ≡ s.queue ++ some e ∷ [])
            × (length (core.contents e) ≡ num)
            × All (λ f. core.sequence_id f ≡ c) (core.contents e)))

  erased : (key k : ℕ) {o : Option E} → o ≡ none → (if k == key then none else o) ≡ none
  erased key k h = ground (arith, h)

  insert_each-Round :
      (num c n : ℕ) (fs : List F) (s : EventStore E)
      → c < numbers.sequence_id_limit
      → ((i : ℕ) → accepts i ≡ true)
      → 0 < num
      → length fs ≡ num
      → HasIds core numbers fs
      → IsIdle num s
      → Round num c n fs s
  insert_each-Round num c n [] s low all pos count ids idle = absurd (omega arith)
  insert_each-Round num c n (f ∷ fs) s low all pos count ids (valid, needs, empty) =
      let key = key_for core numbers s c in
      let (m, (t, e, valid_t, same, (ev, content, queue, found))) =
        insert_each-Completes core numbers accepts c key n no_sequence_id [] f fs s low all
          (inl refl) valid refl (ap (held core) (empty key)) (omega (arith, count, needs)) ids in
      (
        m,
        (
          t,
          e,
          (valid_t, same.0 ∙ needs, λ k. found k ∙ erased key k (empty k)),
          (
            ev,
            queue,
            ap length content ∙ length-map (numbered core numbers c) (f ∷ fs) ∙ count,
            subst (All (λ f. core.sequence_id f ≡ c)) (sym content) (map-numbered c (f ∷ fs) low),
          ),
        ),
      )

  stops :
      (wanted c : ℕ) (done : Bool)
      → wanted < no_sequence_id
      → c ≡ suc wanted
      → generates core numbers v accepts wanted c done ≡ false
  unfolding generates
  stops wanted c done small next = ground (arith, small, next)

  goes :
      (wanted c left : ℕ) (done : Bool)
      → c + suc left ≡ suc wanted
      → done ≡ false
      → generates core numbers v accepts wanted c done ≡ true
  unfolding generates
  goes wanted c left done counts going = ground (arith, counts, going)

  event_loop-step :
      (polls fuel wanted c m : ℕ) (p : Progress core numbers v accepts) (fs : List F)
      (later : List (ThrottledGenerator G F)) (t : EventStore E)
      → generates core numbers v accepts wanted c p.done ≡ true
      → p.done ≡ false
      → c + 1 < size_t_mod
      → collect core v polls p.generators ≡ ok (false, fs, later)
      → insert_each core numbers accepts true c p.insertions no_sequence_id fs p.store ≡ ok (m, t)
      → event_loop core numbers v accepts polls (suc fuel) wanted true c p
        ≡ event_loop core numbers v accepts polls fuel wanted true
            (c + 1)
            (record { insertions = m; done = false; generators = later; store = t })
  unfolding event_loop
  event_loop-step polls fuel wanted c m p fs later t on going small e ins =
      let wraps : (c + 1) % size_t_mod ≡ c + 1 = mod-eq_of_lt small in
      rw (on, e, ins, going, wraps) refl

  pub event_loop-Made :
      (polls num : ℕ) (Ready : List (ThrottledGenerator G F) → Type 0)
      → Feeds polls num Ready
      → ((i : ℕ) → accepts i ≡ true)
      → (wanted left c : ℕ) (p : Progress core numbers v accepts)
      → wanted < numbers.sequence_id_limit
      → c + left ≡ suc wanted
      → p.done ≡ false
      → Ready p.generators
      → IsIdle num p.store
      → (q : Progress core numbers v accepts) × (event_loop core numbers v accepts polls
            (suc left)
            wanted
            true
            c
            p
          ≡ ok q)
        × Made num c left p.store q.store
  event_loop-Made polls num Ready feeds all wanted zero c p small counts going ready idle = (
    p,
    (unfold event_loop in
        rw (stops wanted c p.done (omega (arith, small, numbers.limit-le)) (omega (arith, counts)))
          refl),
    (idle, ([], sym (append-nil _), refl, tt)),
  )
  event_loop-Made polls num Ready feeds all wanted (suc left) c p small counts going ready idle =
      let (fs, (later, e, many, ids, ready')) = feeds.feeds p.generators ready in
      let (m, (t, ins, idle_t, (ev, queue, whole, same))) =
        insert_each-Round num c p.insertions fs p.store (omega (arith, small, counts)) all
          feeds.some_frags many ids idle in
      let (q, loop, (idle_q, (es, queue_q, count, rest))) =
        event_loop-Made polls num Ready feeds all wanted left (c + 1)
          (record { insertions = m; done = false; generators = later; store = t }) small
          (omega (arith, counts)) refl ready' idle_t in
      (
        q,
        event_loop-step polls (suc left) wanted c m p fs later t
              (goes wanted c left p.done counts going) going
              (omega (arith, counts, small, numbers.limit-le)) e ins
            ∙ loop,
        (
          idle_q,
          (
            ev ∷ es,
            queue_q
                ∙ ap (λ l. l ++ map some es) queue
                ∙ append_assoc _ (some ev ∷ []) (map some es),
            ap suc count,
            (whole, same, rest),
          ),
        ),
      )
