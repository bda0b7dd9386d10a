-- ===== src/EventStore/Stale.antt =====
-- What a flush that the queue interrupts does to the events that it leaves in the store.
use fnal_artdaq.Base.{
  subst, ℕ, All, All-append_right, All-map, ◌+◌, ◌<◌, ◌≡◌, sym, ◌∙◌, ◌≢◌, List, [], ◌∷◌, ◌++◌, Bool,
  true, some, ok, ◌==◌, arith, length, length-append, not,
}
use fnal_artdaq.ArtdaqCore.{ArtdaqCore}
use fnal_artdaq.OrderedMap.{find, put}
use fnal_artdaq.EventStore.{
  EventStore, event_key, uint64_mod, add_sample, store_fragment, insert, flush_data,
}
use fnal_artdaq.EventStore.Keys.{event_key_lem}
use fnal_artdaq.EventStore.Insert.{IsValid, IsForming, SameKey, key_of, seen, valid_id}
use fnal_artdaq.EventStore.Flush.{flush_data_lem, flush_data-settings}

-- With the modulus 1, a key is the distance from the last sequence ID flushed.
key_one :
    (flushed seq k : ℕ) → 0 < k → seq ≡ flushed + k → seq < uint64_mod → event_key 1 flushed seq ≡ k
key_one flushed seq k pos e fits =
    event_key_lem 1 flushed seq (omega arith) (omega arith) fits ∙ omega arith

modulus_test :
    {E : Type 0} (t : EventStore E) → t.seq_id_modulus ≡ 1 → not (t.seq_id_modulus == 0) ≡ true
modulus_test t e = ground arith

module _ {F E : Type 0} (core : ArtdaqCore F E) (accepted : Bool) where
  -- A fragment that goes under the first key of the map joins the event there.
  store_fragment-first :
      (t : EventStore E) (k : ℕ) (e : E) (ys : List (ℕ × E)) (f : F)
      → t.events ≡ (k, e) ∷ ys
      → length (core.contents e) + 1 < t.num_fragments_per_event
      → find k (store_fragment core accepted f k t).events ≡ some (core.insert_fragment f e)
  unfolding store_fragment find put
  store_fragment-first t k e ys f first room =
      rw (first, store_fragment)
        (ground (
          arith,
          core.num_fragments-contents (core.insert_fragment f e),
          core.contents-insert_fragment f e,
          length-append (core.contents e) (f ∷ []),
        ))

  -- The fragments under a key of the numbering before have other sequence IDs.
  other_ids :
      (s : EventStore E) (k seq : ℕ) (l : List F)
      → s.seq_id_modulus ≡ 1
      → s.last_flushed_seq_id < s.highest_seq_id_seen
      → seq ≡ s.highest_seq_id_seen + k
      → seq < uint64_mod
      → SameKey core s k l
      → All (λ g. core.sequence_id g ≢ seq) l
  other_ids s k seq l one behind e fits same =
      All-map _ _ l
        (λ g here there.
          let moved : event_key 1 s.last_flushed_seq_id seq ≡ k = rw (one, there) at here in
          absurd (
            omega
              (arith, event_key_lem 1 s.last_flushed_seq_id seq (omega arith) (omega arith) fits)))
        same

  -- A flush that the queue interrupts leaves events under the keys of the numbering before, while
  -- the numbering starts anew. In a valid store with the modulus 1, some of whose fragments came
  -- after the last flush, let `(k, e)` be the first event left. The fragment whose sequence ID is
  -- `k` past the largest one seen is then appended to `e`, if that does not complete it, although
  -- none of the fragments of `e` has its sequence ID.
  pub insert-flush_stale :
      (answers : ℕ → Bool) (s : EventStore E) (k : ℕ) (e : E) (ys : List (ℕ × E)) (f : F)
      → IsValid core s
      → s.seq_id_modulus ≡ 1
      → s.last_flushed_seq_id < s.highest_seq_id_seen
      → (flush_data core answers s).0.events ≡ (k, e) ∷ ys
      → core.fragment_id f ≢ core.invalid_fragment_id
      → core.sequence_id f ≡ s.highest_seq_id_seen + k
      → core.sequence_id f < uint64_mod
      → 0 < k
      → length (core.contents e) + 1 < s.num_fragments_per_event
      → (u : EventStore E) × (grown : E) × (insert core accepted f (flush_data core answers s).0
          ≡ ok u)
        × (find k u.events ≡ some grown)
        × (core.contents grown ≡ core.contents e ++ f ∷ [])
        × All (λ g. core.sequence_id g ≢ core.sequence_id f) (core.contents e)
  unfolding insert
  insert-flush_stale answers s k e ys f v one behind rest good seq fits pos room =
      let t = (flush_data core answers s).0 in
      let (xs, zs, whole, all_accepted, queued, kept, flushed, done) =
        flush_data_lem core answers s in
      let (same_size, same_modulus) = flush_data-settings core answers s in
      let stored = store_fragment core accepted f k (seen core f t) in
      let rewound : key_of core t f ≡ k =
        cc (same_modulus, one, flushed, key_one s.highest_seq_id_seen _ k pos seq fits) in
      let left : All (IsForming core s) ((k, e) ∷ ys) =
        subst (All (IsForming core s)) (sym kept ∙ rest) (
          All-append_right (IsForming core s) xs zs
            (subst (All (IsForming core s)) (sym whole) v.forming)) in
      (
        record stored {
          incomplete_events = add_sample (length (stored.events)) (stored.incomplete_events);
        },
        core.insert_fragment f e,
        rw (valid_id core f good, modulus_test t (same_modulus ∙ one), rewound),
        store_fragment-first (seen core f t) k e ys f rest (rw same_size room),
        core.contents-insert_fragment f e,
        other_ids s k (core.sequence_id f) (core.contents e) one behind seq fits left.0.2,
      )
