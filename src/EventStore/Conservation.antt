-- ===== src/EventStore/Conservation.antt =====
-- No fragment is lost or doubled on its way from the input to the queue. A sum over fragments, for
-- every weight, stands for the multiset of the fragments.
use fnal_artdaq.Base.{
  ℕ, ap, ◌+◌, ◌≡◌, ◌∙◌, Bool-cases, inl, inr, refl, ◌≢◌, ◌⊎◌, List, [], ◌∷◌, ◌++◌, Bool, true,
  false, not, Option, none, some, ok, ◌==◌, if◌then◌else◌, arith, length,
}
use fnal_artdaq.ArtdaqCore.{ArtdaqCore}
use fnal_artdaq.OrderedMap.{find}
use fnal_artdaq.OrderedMap.Laws.{total, weight?, total-put, total-erase, total-append}
use fnal_artdaq.EventStore.Insert.{seen, key_of, valid_id, held, contents-opened}
use fnal_artdaq.EventStore.Flush.{markers, flush_data_lem}
use fnal_artdaq.EventStore.{add_sample, flush_data, EventStore, open_event, store_fragment, insert}

abbrev pub sum_by : {F : Type 0} → (F → ℕ) → List F → ℕ
sum_by w [] = 0
sum_by w (f ∷ fs) = w f + sum_by w fs

sum_by-append :
    {F : Type 0} (w : F → ℕ) (xs ys : List F) → sum_by w (xs ++ ys) ≡ sum_by w xs + sum_by w ys
sum_by-append w [] ys = omega arith
sum_by-append w (x ∷ xs) ys = omega (arith, sum_by-append w xs ys)

module _ {F E : Type 0} (core : ArtdaqCore F E) where
  abbrev pub event_weight : (F → ℕ) → E → ℕ
  event_weight w e = sum_by w (core.contents e)

  -- Over the events on the queue; the end-of-data marker holds nothing.
  abbrev pub queue_weight : (F → ℕ) → List (Option E) → ℕ
  queue_weight w [] = 0
  queue_weight w (e ∷ q) = weight? (event_weight w) e + queue_weight w q

  abbrev pub store_weight : (F → ℕ) → EventStore E → ℕ
  store_weight w s = total (event_weight w) s.events + queue_weight w s.queue

  queue_weight-append :
      (w : F → ℕ) (p q : List (Option E))
      → queue_weight w (p ++ q) ≡ queue_weight w p + queue_weight w q
  queue_weight-append w [] q = omega arith
  queue_weight-append w (e ∷ p) q = omega (arith, queue_weight-append w p q)

  opened-weight :
      (w : F → ℕ) (s : EventStore E) (key : ℕ) (f : F) (o : Option E)
      → event_weight w (core.insert_fragment f (open_event core s key (core.sequence_id f) o))
        ≡ weight? (event_weight w) o + w f
  opened-weight w s key f none =
      rw (core.contents-insert_fragment f, core.contents-new_event s.run_id s.subrun_id)
        (omega arith)
  opened-weight w s key f (some e) =
      rw (core.contents-insert_fragment f e)
        (omega (arith, sum_by-append w (core.contents e) (f ∷ [])))

  module _ (accepted : Bool) (f : F) (s : EventStore E) (key : ℕ) where
    abbrev grown : E
    grown = core.insert_fragment f (open_event core s key (core.sequence_id f) (find key s.events))

    -- The fragments of a complete event that the queue does not accept.
    abbrev dropped : List F
    dropped =
        if core.num_fragments grown == s.num_fragments_per_event
        then if accepted then [] else core.contents (core.mark_complete grown)
        else []

    store_fragment-weight :
        (w : F → ℕ)
        → store_weight w (store_fragment core accepted f key s) + sum_by w dropped
          ≡ store_weight w s + w f
    unfolding store_fragment
    store_fragment-weight w = ground (
      arith,
      opened-weight w s key f (find key s.events),
      total-put (event_weight w) key grown s.events,
      total-erase (event_weight w) key s.events,
      queue_weight-append w s.queue (some (core.mark_complete grown) ∷ []),
      core.contents-mark_complete grown,
    )

    -- The fragments of the event that the fragment goes into, that one included.
    abbrev joined : List F
    joined = held core (find key s.events) ++ f ∷ []

    -- What is dropped: nothing, if the queue accepts or the event is not complete; and otherwise all
    -- the fragments of the event.
    abbrev Dropped : List F → Type 0
    Dropped lost =
        ((lost ≡ []) × ((accepted ≡ true) ⊎ (length joined ≢ s.num_fragments_per_event)))
        ⊎ ((accepted ≡ false) × (length joined ≡ s.num_fragments_per_event) × (lost ≡ joined))

    contents-grown : core.contents grown ≡ joined
    contents-grown = contents-opened core s key f (find key s.events)

    dropped-Dropped : Dropped dropped
    dropped-Dropped =
        let size = core.num_fragments-contents grown ∙ ap length contents-grown in
        elim (Bool-cases (core.num_fragments grown == s.num_fragments_per_event)) [
          | inl whole ↦ elim (Bool-cases accepted) [
            | inl room ↦ rw (whole, room) (inl (refl, inl refl))
            | inr full ↦
                rw (whole, full)
                  (inr (
                    refl,
                    ground (arith, size, whole),
                    core.contents-mark_complete grown ∙ contents-grown,
                  ))
          ]
          | inr part ↦ rw part (inl (refl, inr (ground (arith, size, part))))
        ]

  modulus_test : (s : EventStore E) → s.seq_id_modulus ≢ 0 → not (s.seq_id_modulus == 0) ≡ true
  modulus_test s pos = ground arith

  -- The fragment that `insert` takes is in the store or on its queue afterwards, with all that was
  -- there before, but for what is lost. If the queue accepts, or the fragments under the key of the
  -- fragment, that one included, are not as many as an event has, nothing is lost; otherwise exactly
  -- those fragments are lost, which are those of the complete event.
  pub insert-conserves :
      (accepted : Bool) (f : F) (s : EventStore E)
      → core.fragment_id f ≢ core.invalid_fragment_id
      → s.seq_id_modulus ≢ 0
      → (t : EventStore E) × (lost : List F) × (insert core accepted f s ≡ ok t)
        × ((w : F → ℕ) → store_weight w t + sum_by w lost ≡ store_weight w s + w f)
        × (let joined = held core (find (key_of core s f) s.events) ++ f ∷ [] in
            ((lost ≡ []) × ((accepted ≡ true) ⊎ (length joined ≢ s.num_fragments_per_event)))
            ⊎ ((accepted ≡ false) × (length joined ≡ s.num_fragments_per_event) × (lost ≡ joined)))
  unfolding insert
  insert-conserves accepted f s good pos =
      let now = seen core f s in
      let key = key_of core s f in
      let stored = store_fragment core accepted f key now in
      (
        record stored {
          incomplete_events = add_sample (length (stored.events)) (stored.incomplete_events);
        },
        dropped accepted f now key,
        rw (valid_id core f good, modulus_test s pos),
        store_fragment-weight accepted f now key,
        dropped-Dropped accepted f now key,
      )

  queue_weight-markers :
      (w : F → ℕ) (m : List (ℕ × E)) → queue_weight w (markers m) ≡ total (event_weight w) m
  queue_weight-markers w [] = refl
  queue_weight-markers w ((k, e) ∷ m) = omega (arith, queue_weight-markers w m)

  -- A flush moves events from the store to its queue, and changes no event.
  pub flush_data-conserves :
      (answers : ℕ → Bool) (s : EventStore E) (w : F → ℕ)
      → store_weight w (flush_data core answers s).0 ≡ store_weight w s
  flush_data-conserves answers s w =
      let (xs, ys, whole, all_accepted, queued, kept, flushed, done) =
        flush_data_lem core answers s in
      omega (
        arith,
        ap (total (event_weight w)) kept,
        ap (queue_weight w) queued,
        ap (total (event_weight w)) whole,
        queue_weight-append w s.queue (markers xs),
        queue_weight-markers w xs,
        total-append (event_weight w) xs ys,
      )
