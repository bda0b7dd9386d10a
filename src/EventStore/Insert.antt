-- ===== src/EventStore/Insert.antt =====
-- What `EventStore::insert` does to the events under construction and to the queue.
use fnal_artdaq.Base.{
  ℕ, ◌+◌, ◌≤◌, ◌<◌, ◌≡◌, refl, ◌≢◌, inl, inr, List, [], ◌∷◌, ◌++◌, Bool, true, false, not, Option,
  none, some, ok, ltb, ◌==◌, if◌then◌else◌, arith, length, All, length-append, Bool-cases,
  Option-cases, ==_iff, ◌∙◌, All-append_one,
}
use fnal_artdaq.ArtdaqCore.{ArtdaqCore}
use fnal_artdaq.OrderedMap.{find}
use fnal_artdaq.OrderedMap.Laws.{
  Above, put-Above, erase-Above, put-All, erase-All, find-All, find-put, find-erase,
}
use fnal_artdaq.EventStore.{EventStore, event_key, open_event, add_sample, store_fragment, insert}

module _ {F E : Type 0} (core : ArtdaqCore F E) where
  -- The fragments of one event: those that the store files under one key.
  abbrev pub SameKey : EventStore E → ℕ → List F → Type 0
  SameKey s key =
      All λ f. event_key s.seq_id_modulus s.last_flushed_seq_id (core.sequence_id f) ≡ key

  -- An event under construction has some of its fragments, and not yet all.
  abbrev pub IsForming : EventStore E → ℕ × E → Type 0
  IsForming s (key, e) =
      (1 ≤ length (core.contents e))
      × (length (core.contents e) < s.num_fragments_per_event)
      × SameKey s key (core.contents e)

  pub record IsValid (s : EventStore E) : Type 0 where
    pub some_expected : 0 < s.num_fragments_per_event
    pub some_modulus : 0 < s.seq_id_modulus
    pub sorted : Above 0 s.events
    pub forming : All (IsForming s) s.events

  -- The fragments that the store holds under a key.
  abbrev pub held : Option E → List F
  held none = []
  held (some e) = core.contents e

  -- An event leaves the map for the queue when it has all its fragments, which share their key.
  pub data Effect (accepted : Bool) (f : F) (key : ℕ) (s t : EventStore E) : Type 0 where
    building :
        (e : E)
        → core.contents e ≡ held (find key s.events) ++ f ∷ []
        → length (core.contents e) < s.num_fragments_per_event
        → ((k : ℕ) → find k t.events ≡ (if k == key then some e else find k s.events))
        → t.queue ≡ s.queue
        → Effect accepted f key s t
    completing :
        (e : E)
        → core.contents e ≡ held (find key s.events) ++ f ∷ []
        → length (core.contents e) ≡ s.num_fragments_per_event
        → SameKey s key (core.contents e)
        → ((k : ℕ) → find k t.events ≡ (if k == key then none else find k s.events))
        → t.queue ≡ (if accepted then s.queue ++ some e ∷ [] else s.queue)
        → Effect accepted f key s t

  pub contents-opened :
      (s : EventStore E) (key : ℕ) (f : F) (o : Option E)
      → core.contents (core.insert_fragment f (open_event core s key (core.sequence_id f) o))
        ≡ held o ++ f ∷ []
  contents-opened s key f none =
      rw (core.contents-insert_fragment f, core.contents-new_event s.run_id s.subrun_id)
  contents-opened s key f (some e) = core.contents-insert_fragment f e

  -- What is held under a key is not yet a whole event, and all of it belongs there.
  abbrev IsPart : EventStore E → ℕ → List F → Type 0
  IsPart s key l = (length l < s.num_fragments_per_event) × SameKey s key l

  held-IsPart : (s : EventStore E) → IsValid s → (key : ℕ) → IsPart s key (held (find key s.events))
  held-IsPart s v key = elim (Option-cases (find key s.events)) [
    | inl absent ↦ rw absent (v.some_expected, tt)
    | inr (e, there) ↦
        let p = find-All (IsForming s) key s.events v.forming there in rw there (p.1, p.2)
  ]

  module _ (accepted : Bool) (f : F) (s : EventStore E) (v : IsValid s) where
    abbrev key : ℕ
    key = event_key s.seq_id_modulus s.last_flushed_seq_id (core.sequence_id f)

    -- The event that the fragment goes into, after it has gone in.
    abbrev grown : E
    grown = core.insert_fragment f (open_event core s key (core.sequence_id f) (find key s.events))

    abbrev before : List F
    before = held (find key s.events)

    contents-grown : core.contents grown ≡ before ++ f ∷ []
    contents-grown = contents-opened s key f (find key s.events)

    length-grown : length (core.contents grown) ≡ length before + 1
    length-grown = rw contents-grown (length-append before (f ∷ []))

    grown-SameKey : SameKey s key (core.contents grown)
    grown-SameKey = rw contents-grown (All-append_one _ before (held-IsPart s v key).1 refl)

    length-grown-lt :
        (core.num_fragments grown == s.num_fragments_per_event) ≡ false
        → length (core.contents grown) < s.num_fragments_per_event
    length-grown-lt less =
        ground (arith, core.num_fragments-contents grown, length-grown, (held-IsPart s v key).0)

    store_fragment-Effect : Effect accepted f key s (store_fragment core accepted f key s)
    unfolding store_fragment
    store_fragment-Effect =
        elim (Bool-cases (core.num_fragments grown == s.num_fragments_per_event)) [
          | inl full ↦ rw full (
              completing (core.mark_complete grown)
                (core.contents-mark_complete grown ∙ contents-grown)
                (rw (core.contents-mark_complete grown)
                  (omega (arith, core.num_fragments-contents grown, (==_iff _ _).0 full)))
                (rw (core.contents-mark_complete grown) grown-SameKey)
                (λ k. find-erase key k 0 s.events v.sorted) refl)
          | inr less ↦ rw less (
              building grown contents-grown (length-grown-lt less)
                (λ k. find-put key k grown 0 s.events v.sorted) refl)
        ]

    store_fragment-IsValid : IsValid (store_fragment core accepted f key s)
    unfolding store_fragment
    store_fragment-IsValid =
        elim (Bool-cases (core.num_fragments grown == s.num_fragments_per_event)) [
          | inl full ↦ rw full (record {
            some_expected = v.some_expected;
            some_modulus = v.some_modulus;
            sorted = erase-Above key 0 s.events v.sorted;
            forming = erase-All (IsForming s) key s.events v.forming;
          })
          | inr less ↦ rw less (record {
            some_expected = v.some_expected;
            some_modulus = v.some_modulus;
            sorted = put-Above key grown 0 s.events (omega arith) v.sorted;
            forming =
                put-All (IsForming s) key grown s.events
                  (omega (arith, length-grown), length-grown-lt less, grown-SameKey) v.forming;
          })
        ]

    store_fragment-highest :
        (store_fragment core accepted f key s).highest_seq_id_seen ≡ s.highest_seq_id_seen
    unfolding store_fragment
    store_fragment-highest = ground arith

  -- `highestSeqIDSeen_` after a fragment.
  abbrev pub highest : F → EventStore E → ℕ
  highest f s =
      let seq = core.sequence_id f in
      if ltb s.highest_seq_id_seen seq then seq else s.highest_seq_id_seen

  abbrev pub key_of : EventStore E → F → ℕ
  key_of s f = event_key s.seq_id_modulus s.last_flushed_seq_id (core.sequence_id f)

  abbrev pub seen : F → EventStore E → EventStore E
  seen f s = record s { highest_seq_id_seen = highest f s }

  seen-IsValid : (f : F) (s : EventStore E) → IsValid s → IsValid (seen f s)
  seen-IsValid f s v = record {
    some_expected = v.some_expected;
    some_modulus = v.some_modulus;
    sorted = v.sorted;
    forming = v.forming;
  }

  pub valid_id :
      (f : F)
      → core.fragment_id f ≢ core.invalid_fragment_id
      → not (core.fragment_id f == core.invalid_fragment_id) ≡ true
  valid_id f good = ground arith

  some_modulus_test : (s : EventStore E) → IsValid s → not (s.seq_id_modulus == 0) ≡ true
  some_modulus_test s v = ground (arith, v.some_modulus)

  -- The effect speaks of neither the largest sequence ID seen nor the statistics.
  Effect-seen :
      (accepted : Bool) (f : F) (s t : EventStore E) {samples : Option (List ℕ)}
      → Effect accepted f (key_of s f) (seen f s) t
      → Effect accepted f (key_of s f) s (record t { incomplete_events = samples })
  Effect-seen accepted f s t (building e c l m q) = building e c l m q
  Effect-seen accepted f s t (completing e c l k m q) = completing e c l k m q

  -- A fragment with a valid ID goes into a valid store without a fault, and leaves it valid: either
  -- it joins the fragments held under its key, which is all that changes in the map, and the event
  -- is not complete; or the event is complete: it has as many fragments as an event needs, all of
  -- one key, and it leaves the map for the queue, or for nowhere if the queue does not accept it.
  pub insert_lem :
      (accepted : Bool) (f : F) (s : EventStore E)
      → IsValid s
      → core.fragment_id f ≢ core.invalid_fragment_id
      → (t : EventStore E) × (insert core accepted f s ≡ ok t)
        × IsValid t
        × Effect accepted f (key_of s f) s t
        × (t.highest_seq_id_seen ≡ highest f s)
  unfolding insert
  insert_lem accepted f s v good =
      let v' = seen-IsValid f s v in
      let stored = store_fragment core accepted f (key_of s f) (seen f s) in
      let u = store_fragment-IsValid accepted f (seen f s) v' in
      (
        record stored {
          incomplete_events = add_sample (length (stored.events)) (stored.incomplete_events);
        },
        rw (valid_id f good, some_modulus_test s v),
        record {
          some_expected = u.some_expected;
          some_modulus = u.some_modulus;
          sorted = u.sorted;
          forming = u.forming;
        },
        Effect-seen accepted f s stored (store_fragment-Effect accepted f (seen f s) v'),
        store_fragment-highest accepted f (seen f s) v',
      )
