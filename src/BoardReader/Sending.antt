-- ===== src/BoardReader/Sending.antt =====
-- What `process_fragments` of artdaq/Application/MPI2/BoardReaderCore.cc sends.
use fnal_artdaq.Base.{
  ok-injective, Option-cases, ok-bind, ℕ, zero, suc, ◌+◌, ◌%◌, ◌<◌, ◌≡◌, refl, ap, sym, subst, ◌∙◌,
  List, [], ◌∷◌, ◌++◌, Bool, true, false, Option, none, some, ok, All, arith, Bool-cases, inl, inr,
  length,
}
use mathlib.Core.Option.{some-injective, none-ne-some}
use fnal_artdaq.ArtdaqCore.{ArtdaqCore}
use fnal_artdaq.FragCounter.{size_t_mod}
use fnal_artdaq.Generator.{Generator, Virtuals, get_next}
use fnal_artdaq.SHandles
use fnal_artdaq.SHandles.{SHandles, send_fragment, close}
use fnal_artdaq.SHandles.Sending.{IsFair}
use fnal_artdaq.SHandles.Closing.{EodsFit, CanSend, all_messages, eods, send_all, send_all-close}
use fnal_artdaq.BoardReader.{BoardReaderCore, begin, send_frags, run, end, process_fragments}

-- What the generator yields up to the first call of `getNext` that answers `false`, if that comes
-- within so many calls, and the generator then.
unfoldable pub yields :
    {D F : Type 0} → Virtuals D F → ℕ → Generator D → Option (List F × Generator D)
yields v zero g = none
yields v (suc turns) g =
    let (active, frags, h) = get_next v [] g in
    let rest = yields v turns h in
    elim active [
      | false ↦ some ([], h)
      | true ↦ elim rest [ none ↦ none | some (later, last) ↦ some (frags ++ later, last) ]
    ]

module _ {F E : Type 0} (core : ArtdaqCore F E) where
  -- The sequence ID of the last fragment.
  abbrev pub last_seq_id : ℕ → List F → ℕ
  last_seq_id seq [] = seq
  last_seq_id seq (f ∷ fs) = last_seq_id (core.sequence_id f) fs

  last_seq_id-append :
      (seq : ℕ) (fs gs : List F) → last_seq_id seq (fs ++ gs) ≡ last_seq_id (last_seq_id seq fs) gs
  last_seq_id-append seq [] gs = refl
  last_seq_id-append seq (f ∷ fs) gs = last_seq_id-append (core.sequence_id f) fs gs

-- `++fragment_count_` for each of so many fragments.
abbrev pub counted : {F : Type 0} → ℕ → List F → ℕ
counted n [] = n
counted n (f ∷ fs) = counted ((n + 1) % size_t_mod) fs

counted-append :
    {F : Type 0} (n : ℕ) (fs gs : List F) → counted n (fs ++ gs) ≡ counted (counted n fs) gs
counted-append n [] gs = refl
counted-append n (f ∷ fs) gs = counted-append ((n + 1) % size_t_mod) fs gs

counted-length :
    {F : Type 0} (n : ℕ) (fs : List F)
    → n < size_t_mod
    → counted n fs ≡ (n + length fs) % size_t_mod
counted-length n [] h = omega (arith, h)
counted-length n (f ∷ fs) h = counted-length ((n + 1) % size_t_mod) fs (omega arith) ∙ omega arith

module _ {D F E : Type 0} (core : ArtdaqCore F E) where
  -- The board reader after sending, with the sender that it has then.
  abbrev pub sent : List F → SHandles F → BoardReaderCore D F → BoardReaderCore D F
  sent fs t b = record b {
    prev_seq_id = last_seq_id core b.prev_seq_id fs;
    sender = some t;
    fragment_count = counted b.fragment_count fs;
  }

  -- The board reader after the loop.
  abbrev pub after : List F → SHandles F → Generator D → BoardReaderCore D F → BoardReaderCore D F
  after fs t h b = record (sent fs t b) { generator = some h }

  after-append :
      (fs gs : List F) (u t : SHandles F) (g h : Generator D) (b : BoardReaderCore D F)
      → after gs t h (after fs u g b) ≡ after (fs ++ gs) t h b
  after-append fs gs u t g h b =
      rw (last_seq_id-append core b.prev_seq_id fs gs, counted-append b.fragment_count fs gs) refl

module _ {D F E : Type 0} (core : ArtdaqCore F E) (tests : ℕ → Bool) (rounds : ℕ) where
  send_frags-send_all :
      (fs : List F) (s t : SHandles F) (b : BoardReaderCore D F)
      → b.sender ≡ some s
      → send_all core tests rounds fs s ≡ ok t
      → send_frags core tests rounds fs b ≡ ok (sent core fs t b)
  unfolding send_frags send_all
  send_frags-send_all [] s t b has all = ground (arith, has, all)
  send_frags-send_all (f ∷ fs) s t b has all =
      let ((dest, u), first, rest) =
        ok-bind (send_fragment core tests rounds f s) (λ r. send_all core tests rounds fs r.1)
          all in
      let b' = record b {
        prev_seq_id = core.sequence_id f;
        sender = some u;
        fragment_count = (b.fragment_count + 1) % size_t_mod;
      } in
      ground (arith, has, first, send_frags-send_all fs u t b' refl rest)

module _ {D F : Type 0} (v : Virtuals D F) where
  yields-idle :
      (turns : ℕ) (g : Generator D)
      → (get_next v [] g).0 ≡ false
      → yields v (suc turns) g ≡ some ([], (get_next v [] g).2)
  unfolding yields
  yields-idle turns g idle = ground (arith, idle)

  yields-active :
      (turns : ℕ) (g h : Generator D) (fs : List F)
      → (get_next v [] g).0 ≡ true
      → yields v (suc turns) g ≡ some (fs, h)
      → (later : List F) × (yields v turns (get_next v [] g).2 ≡ some (later, h))
        × ((get_next v [] g).1 ++ later ≡ fs)
  unfolding yields
  yields-active turns g h fs active all = elim (Option-cases (yields v turns (get_next v [] g).2)) [
    | inl e ↦
        let result : List F × Generator D = (fs, h) in
        let wrong : none ≡ some result = ground (arith, active, e, all) in
        absurd (none-ne-some _ wrong)
    | inr ((later, last), e) ↦
        let found : List F × Generator D = ((get_next v [] g).1 ++ later, last) in
        let wanted : List F × Generator D = (fs, h) in
        let same : some found ≡ some wanted = ground (arith, active, e, all) in
        let both = some-injective _ _ same in
        (later, e ∙ ap (λ x. some (later, x)) (ap (λ p. p.1) both), ap (λ p. p.0) both)
  ]

module _ {F E : Type 0} (core : ArtdaqCore F E) (tests : ℕ → Bool) (rounds : ℕ) where
  send_all-split :
      (fs gs : List F) (s t : SHandles F)
      → send_all core tests rounds (fs ++ gs) s ≡ ok t
      → (u : SHandles F) × (send_all core tests rounds fs s ≡ ok u)
        × (send_all core tests rounds gs u ≡ ok t)
  unfolding send_all
  send_all-split [] gs s t all = (s, refl, all)
  send_all-split (f ∷ fs) gs s t all =
      let ((dest, u), first, rest) =
        ok-bind (send_fragment core tests rounds f s)
          (λ r. send_all core tests rounds (fs ++ gs) r.1) all in
      let (w, before, after) = send_all-split fs gs u t rest in (w, rw first before, after)

module _ {D F E : Type 0} (core : ArtdaqCore F E) (tests : ℕ → Bool) (rounds : ℕ)
    (v : Virtuals D F) where
  run-idle :
      (turns : ℕ) (g : Generator D) (b : BoardReaderCore D F)
      → b.generator ≡ some g
      → (get_next v [] g).0 ≡ false
      → run core tests rounds v (suc turns) true b
        ≡ ok (false, record b { generator = some (get_next v [] g).2 })
  unfolding run
  run-idle turns g b has idle = ground (arith, has, idle)

  run-active :
      (turns : ℕ) (g : Generator D) (b c : BoardReaderCore D F)
      → b.generator ≡ some g
      → (get_next v [] g).0 ≡ true
      → send_frags core tests rounds
          (get_next v [] g).1
          (record b { generator = some (get_next v [] g).2 })
        ≡ ok c
      → run core tests rounds v (suc turns) true b ≡ run core tests rounds v turns true c
  unfolding run
  run-active turns g b c has active first = ground (arith, has, active, first)

  -- The loop sends, in order, all that the generator yields.
  run-send_all :
      (turns : ℕ) (g h : Generator D) (fs : List F) (s t : SHandles F) (b : BoardReaderCore D F)
      → b.generator ≡ some g
      → b.sender ≡ some s
      → yields v turns g ≡ some (fs, h)
      → send_all core tests rounds fs s ≡ ok t
      → run core tests rounds v turns true b ≡ ok (false, after core fs t h b)
  unfolding send_all yields
  run-send_all zero g h fs s t b has opened all run = absurd (none-ne-some _ all)
  run-send_all (suc turns) g h fs s t b has opened all sends =
      elim (Bool-cases (get_next v [] g).0) [
        | inr idle ↦
            let both = some-injective _ _ (sym (yields-idle v turns g idle) ∙ all) in
            subst
              (λ p.
                send_all core tests rounds p.0 s ≡ ok t
                → run core tests rounds v (suc turns) true b ≡ ok (false, after core p.0 t p.1 b))
              both
              (λ same.
                run-idle turns g b has idle
                ∙ ap
                    (λ o. ok (false, record b { sender = o; generator = some (get_next v [] g).2 }))
                    (opened ∙ ap some (ok-injective _ _ same)))
              sends
        | inl active ↦
            let (later, others, joined) = yields-active v turns g h fs active all in
            let frags = (get_next v [] g).1 in
            let h' = (get_next v [] g).2 in
            let (u, before, rest) =
              send_all-split core tests rounds frags later s t
                (subst (λ x. send_all core tests rounds x s ≡ ok t) (sym joined) sends) in
            run-active turns g b (after core frags u h' b) has active (
              send_frags-send_all core tests rounds frags s u (record b { generator = some h' })
                opened before)
            ∙ run-send_all turns h' h later u t (after core frags u h' b) refl refl others rest
            ∙ ap (λ x. ok (false, x))
                (after-append core frags later u t h' h b ∙ ap (λ x. after core x t h b) joined)
      ]

module _ {D F : Type 0} where
  -- The sender that `process_fragments` makes.
  abbrev pub sender_of : BoardReaderCore D F → SHandles F
  sender_of b =
      SHandles.new b.mpi_buffer_count b.max_fragment_size_words b.evb_count b.first_evb_rank false
        b.synchronous_sends

module _ {D F E : Type 0} (core : ArtdaqCore F E) (tests : ℕ → Bool) (rounds : ℕ)
    (v : Virtuals D F) where
  -- Given at least one buffer and one event builder, ranks below 2^64, that MPI makes progress, that
  -- the fragments are data that fits, and that every end-of-data fragment fits: if the generator
  -- ends within the turns, `process_fragments` returns. It has sent, in their order, all that the
  -- generator yielded, each fragment to the event builder of its sequence ID, and then to each event
  -- builder an end-of-data fragment with the number of the messages that it got, modulo 2^64; and
  -- the count of the fragments has grown by their number, modulo 2^64.
  pub process_fragments_lem :
      (fair : IsFair tests rounds) (turns : ℕ) (g h : Generator D) (fs : List F)
      (b : BoardReaderCore D F)
      → b.generator ≡ some g
      → yields v turns g ≡ some (fs, h)
      → 0 < b.mpi_buffer_count
      → 0 < b.evb_count
      → b.first_evb_rank + b.evb_count < size_t_mod
      → b.fragment_count < size_t_mod
      → EodsFit core b.max_fragment_size_words
      → All (CanSend core b.max_fragment_size_words) fs
      → process_fragments core tests rounds v turns b
        ≡ ok (
          record b {
            generator = some h;
            sender = none;
            fragment_count = (b.fragment_count + length fs) % size_t_mod;
            prev_seq_id = last_seq_id core b.prev_seq_id fs;
          },
          all_messages core (sender_of b) fs
              ++ eods core (all_messages core (sender_of b) fs) b.evb_count b.first_evb_rank,
        )
  unfolding process_fragments begin end
  process_fragments_lem fair turns g h fs b has all buffers builders below small fit good =
      let (t, whole, messages) =
        send_all-close core tests rounds fair b.mpi_buffer_count b.max_fragment_size_words
          b.evb_count b.first_evb_rank false b.synchronous_sends buffers builders below fit fs
          good in
      let (u, sends, closes) =
        ok-bind (send_all core tests rounds fs (sender_of b)) (close core tests rounds) whole in
      ground (
        arith,
        run-send_all core tests rounds v turns g h fs (sender_of b) u (begin b) has refl all sends,
        closes,
        messages,
        counted-length b.fragment_count fs small,
      )
