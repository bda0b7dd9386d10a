-- ===== src/GenToArt/Rounds.antt =====
-- The fragments of one round of `process_data` of tools/genToArt.cc in the event store: if they
-- are as many as an event needs, they make one complete event.
use fnal_artdaq.Base.{
  ℕ, suc, ◌+◌, ◌<◌, ◌≡◌, ◌≢◌, refl, ap, sym, subst, ◌∙◌, List, [], ◌∷◌, ◌++◌, map, append_assoc,
  length-append, ==_iff, Bool, true, false, not, ◌&&◌, Option, none, some, ok, ◌>>=◌, Ends, ended,
  Ends-any, Ends-of, if◌then◌else◌, require, assertion, division_by_zero, ◌⊎◌, inr, ◌==◌, length,
  All, arith,
}
use fnal_artdaq.ArtdaqCore.{ArtdaqCore}
use fnal_artdaq.OrderedMap.{find}
use fnal_artdaq.EventStore.{EventStore, event_key, store_fragment, insert}
use fnal_artdaq.EventStore.Insert.{
  seen, IsValid, held, Effect, building, completing, insert_lem, key_of,
}
use fnal_artdaq.GenToArt.{Numbering, insert_each, no_sequence_id}

module _ {F E : Type 0} (core : ArtdaqCore F E) (numbers : Numbering core) where
  abbrev pub numbered : ℕ → F → F
  numbered n = numbers.set_sequence_id n

  -- What decides which event a fragment goes to.
  abbrev SameSettings : EventStore E → EventStore E → Type 0
  SameSettings s t =
      (t.num_fragments_per_event ≡ s.num_fragments_per_event)
      × (t.seq_id_modulus ≡ s.seq_id_modulus)
      × (t.last_flushed_seq_id ≡ s.last_flushed_seq_id)

  store_fragment-SameSettings :
      (accepted : Bool) (f : F) (key : ℕ) (s : EventStore E)
      → SameSettings s (store_fragment core accepted f key s)
  unfolding store_fragment
  store_fragment-SameSettings accepted f key s = ground arith

  insert-SameSettings :
      (accepted : Bool) (f : F) (s : EventStore E)
      → Ends (SameSettings s) (insert core accepted f s)
  unfolding insert
  insert-SameSettings accepted f s =
      Ends-any (require (not (core.fragment_id f == core.invalid_fragment_id)) assertion) λ fine.
        Ends-any (require (not (s.seq_id_modulus == 0)) division_by_zero) λ divides.
          ended (store_fragment-SameSettings accepted f (key_of core s f) (seen core f s))

  -- What a fragment of a round meets: it is the first, or the round has the number `c`.
  abbrev InRound : ℕ → ℕ → Type 0
  InRound c current = (current ≡ no_sequence_id) ⊎ (current ≡ c)

  undisturbed :
      (c current : ℕ) (f : F)
      → c < numbers.sequence_id_limit
      → InRound c current
      → ((not (current == no_sequence_id) && not (core.sequence_id (numbered c f) == current))
          ≡ false)
        × ((if current == no_sequence_id then core.sequence_id (numbered c f) else current) ≡ c)
  undisturbed c current f low h = ground (arith, h, numbers.sequence_id-set_sequence_id c f low)

  insert_each-insert :
      (accepts : ℕ → Bool) (c n current : ℕ) (f : F) (fs : List F) (s : EventStore E)
      → c < numbers.sequence_id_limit
      → InRound c current
      → insert_each core numbers accepts true c n current (f ∷ fs) s ≡ (
          insert core (accepts n) (numbered c f) s >>= λ t.
          insert_each core numbers accepts true c (n + 1) c fs t)
  unfolding insert_each
  insert_each-insert accepts c n current f fs s low h =
      let (same, next) = undisturbed c current f low h in rw (same, next) refl

  -- The events that are made: one more, of the fragments `before` and `fs`.
  abbrev Adds : ℕ → List F → EventStore E → EventStore E → Type 0
  Adds key content s t =
      (e : E) × (core.contents e ≡ content)
      × (t.queue ≡ s.queue ++ some e ∷ [])
      × ((k : ℕ) → find k t.events ≡ (if k == key then none else find k s.events))

  abbrev pub key_for : EventStore E → ℕ → ℕ
  key_for s c = event_key s.seq_id_modulus s.last_flushed_seq_id c

  abbrev pub HasIds : List F → Type 0
  HasIds fs = All (λ f. core.fragment_id f ≢ core.invalid_fragment_id) fs

  -- A round of number `c`, with the key `key`, from a store that has `before` of its event.
  abbrev Completes : (ℕ → Bool) → ℕ → ℕ → ℕ → ℕ → List F → List F → EventStore E → Type 0
  Completes accepts c key n current before fs s =
      (m : ℕ) × ((t : EventStore E) × (insert_each core numbers accepts true c n current fs s
          ≡ ok (m, t))
        × IsValid core t
        × SameSettings s t
        × Adds key (before ++ map (numbered c) fs) s t)

  insert-numbered :
      (accepted : Bool) (c key : ℕ) (f : F) (s : EventStore E)
      → c < numbers.sequence_id_limit
      → accepted ≡ true
      → IsValid core s
      → key_for s c ≡ key
      → core.fragment_id f ≢ core.invalid_fragment_id
      → (t : EventStore E) × (insert core accepted (numbered c f) s ≡ ok t)
        × IsValid core t
        × SameSettings s t
        × Effect core true (numbered c f) key s t
  insert-numbered accepted c key f s low accept valid at_key id =
      let law = numbers.fragment_id-set_sequence_id c f in
      let (t, e, valid_t, effect, high) =
        insert_lem core accepted (numbered c f) s valid (λ same. id (sym law ∙ same)) in
      let effect' =
        subst
          (λ n.
            Effect core accepted (numbered c f) (event_key s.seq_id_modulus s.last_flushed_seq_id n)
              s t)
          (numbers.sequence_id-set_sequence_id c f low) effect in
      (
        t,
        e,
        valid_t,
        Ends-of (insert-SameSettings accepted (numbered c f) s) e,
        subst (λ k. Effect core true (numbered c f) k s t) at_key
            (subst (λ a. Effect core a (numbered c f) (key_for s c) s t) accept effect'),
      )

  last-Adds :
      {f : F} {key : ℕ} (s t : EventStore E) (before : List F)
      → Effect core true f key s t
      → held core (find key s.events) ≡ before
      → length before + 1 ≡ s.num_fragments_per_event
      → Adds key (before ++ f ∷ []) s t
  last-Adds {f} s t before (building e c l m q) has count =
      absurd (ground (arith, c, has, length-append before (f ∷ [])))
  last-Adds {f} s t before (completing e c l k m q) has count =
      (e, c ∙ ap (λ b. b ++ f ∷ []) has, q, m)

  -- An event that misses a fragment after `f` is not complete.
  abbrev Grows : ℕ → List F → EventStore E → EventStore E → Type 0
  Grows key content s t =
      (e : E) × (core.contents e ≡ content)
      × (t.queue ≡ s.queue)
      × ((k : ℕ) → find k t.events ≡ (if k == key then some e else find k s.events))

  first-Grows :
      {f : F} {key : ℕ} (s t : EventStore E) (before : List F) (more : ℕ)
      → Effect core true f key s t
      → held core (find key s.events) ≡ before
      → length before + suc (suc more) ≡ s.num_fragments_per_event
      → Grows key (before ++ f ∷ []) s t
  first-Grows {f} s t before more (building e c l m q) has count =
      (e, c ∙ ap (λ b. b ++ f ∷ []) has, q, m)
  first-Grows {f} s t before more (completing e c l k m q) has count =
      absurd (ground (arith, c, has, length-append before (f ∷ [])))

  Grows-held :
      (key : ℕ) (content : List F) (s t : EventStore E)
      → Grows key content s t
      → held core (find key t.events) ≡ content
  Grows-held key content s t (e, holds, queue, found) =
      rw (found key, (==_iff key key).1 refl) holds

  key_for-SameSettings : (c : ℕ) (s t : EventStore E) → SameSettings s t → key_for t c ≡ key_for s c
  key_for-SameSettings c s t (num, modulus, last) = rw (modulus, last) refl

  SameSettings-trans :
      (s t u : EventStore E) → SameSettings s t → SameSettings t u → SameSettings s u
  SameSettings-trans s t u (a, b, c) (d, e, f) = (d ∙ a, e ∙ b, f ∙ c)

  -- What is put under a key and then erased.
  twice :
      (key k : ℕ) (e : E) (now before : Option E)
      → now ≡ (if k == key then some e else before)
      → (if k == key then none else now) ≡ (if k == key then none else before)
  twice key k e now before h = ground (arith, h)

  Grows-Adds :
      (key : ℕ) (before rest : List F) (f : F) (s t u : EventStore E)
      → Grows key (before ++ f ∷ []) s t
      → Adds key ((before ++ f ∷ []) ++ rest) t u
      → Adds key (before ++ f ∷ rest) s u
  Grows-Adds key before rest f s t u (e, content, queue, found)
        (whole, content_u, queue_u, found_u) =
      (
        whole,
        content_u ∙ append_assoc before (f ∷ []) rest,
        queue_u ∙ ap (λ q. q ++ some whole ∷ []) queue,
        λ k. found_u k ∙ twice key k e (find k t.events) (find k s.events) (found k),
      )

  pub insert_each-Completes :
      (accepts : ℕ → Bool) (c key n current : ℕ) (before : List F) (f : F) (fs : List F)
      (s : EventStore E)
      → c < numbers.sequence_id_limit
      → ((i : ℕ) → accepts i ≡ true)
      → InRound c current
      → IsValid core s
      → key_for s c ≡ key
      → held core (find key s.events) ≡ before
      → length before + suc (length fs) ≡ s.num_fragments_per_event
      → HasIds (f ∷ fs)
      → Completes accepts c key n current before (f ∷ fs) s
  unfolding insert_each
  insert_each-Completes accepts c key n current before f [] s low all here valid at_key has count
        ids =
      let (t, e, valid_t, same, effect) =
        insert-numbered (accepts n) c key f s low (all n) valid at_key ids.0 in
      (
        n + 1,
        (
          t,
          insert_each-insert accepts c n current f [] s low here
              ∙ ap (λ r. r >>= λ u. insert_each core numbers accepts true c (n + 1) c [] u) e,
          valid_t,
          same,
          last-Adds s t before effect has count,
        ),
      )
  insert_each-Completes accepts c key n current before f (g ∷ fs) s low all here valid at_key has
        count ids =
      let (t, e, valid_t, same, effect) =
        insert-numbered (accepts n) c key f s low (all n) valid at_key ids.0 in
      let grows = first-Grows s t before (length fs) effect has count in
      let (m, (u, e_u, valid_u, same_u, adds)) =
        insert_each-Completes accepts c key (n + 1) c (before ++ numbered c f ∷ []) g fs t low all
          (inr refl) valid_t (key_for-SameSettings c s t same ∙ at_key) (Grows-held key _ s t grows)
          (ground (arith, same, length-append before (numbered c f ∷ []))) ids.1 in
      (
        m,
        (
          u,
          insert_each-insert accepts c n current f (g ∷ fs) s low here
              ∙ ap (λ r. r >>= λ u. insert_each core numbers accepts true c (n + 1) c (g ∷ fs) u) e
              ∙ e_u,
          valid_u,
          SameSettings-trans s t u same same_u,
          Grows-Adds key before (map (numbered c) (g ∷ fs)) (numbered c f) s t u grows adds,
        ),
      )
