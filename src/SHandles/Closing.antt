-- ===== src/SHandles/Closing.antt =====
-- The destructor, and the whole life of a sender.
use fnal_artdaq.Base.{
  inl, inr, ℕ, zero, suc, ◌+◌, ◌%◌, ◌≤◌, ◌<◌, ◌≡◌, refl, sym, ap, ◌∙◌, List, [], ◌∷◌, ◌++◌, Bool,
  true, Outcome, ok, ◌>>=◌, ◌≢◌, subst, All, arith, append_assoc, append-nil, replicate,
}
use fnal_artdaq.ArtdaqCore.{ArtdaqCore}
use fnal_artdaq.FragCounter.{size_t_mod, slot_count}
use fnal_artdaq.SHandles.{SHandles, send_fragment, send_eod_frag, send_eods, close, wait_all}
use fnal_artdaq.SHandles
use fnal_artdaq.SHandles.Sending.{IsReady, IsFair, SameSettings, send_frag_to_lem}
use fnal_artdaq.SHandles.Counting.{tally_cong, IsOpen, Sends, Sends-trans, sent_to, tally, tally_in}
use fnal_artdaq.SHandles.Lifetime.{messages, new-IsOpen, send_fragment_lem}

-- The end-of-data messages to `n` ranks from `dest` on, after the messages `l`.
abbrev pub eods : {F E : Type 0} → ArtdaqCore F E → List (ℕ × F) → ℕ → ℕ → List (ℕ × F)
eods core l zero dest = []
eods core l (suc n) dest =
    (dest, core.eod_frag (sent_to dest l % size_t_mod)) ∷ eods core l n (dest + 1)

-- Every end-of-data fragment fits.
abbrev pub EodsFit : {F E : Type 0} → ArtdaqCore F E → ℕ → Type 0
EodsFit core size = (n : ℕ) → core.data_size (core.eod_frag n) ≤ size

-- All fragments may be sent.
abbrev pub CanSend : {F E : Type 0} → ArtdaqCore F E → ℕ → F → Type 0
CanSend core size f = (core.type_code f ≢ core.end_of_data) × (core.data_size f ≤ size)

ends_cong :
    {F E : Type 0} (core : ArtdaqCore F E) {l m : List (ℕ × F)} {n k d e : ℕ}
    → l ≡ m
    → n ≡ k
    → d ≡ e
    → l ++ eods core l n d ≡ m ++ eods core m k e
ends_cong core a b c = rw (a, b, c) refl

-- The messages of calls one after another.
abbrev pub all_messages : {F E : Type 0} → ArtdaqCore F E → SHandles F → List F → List (ℕ × F)
all_messages core s [] = []
all_messages core s (f ∷ fs) = messages core s f ++ all_messages core s fs

all_messages_cong :
    {F E : Type 0} (core : ArtdaqCore F E) (s t : SHandles F) (fs : List F)
    → SameSettings s t
    → all_messages core t fs ≡ all_messages core s fs
all_messages_cong core s t [] same = refl
all_messages_cong core s t (f ∷ fs) same =
    let rest = all_messages_cong core s t fs same in rw (same.1, same.2, same.3, rest) refl

module _ {F E : Type 0} (core : ArtdaqCore F E) (tests : ℕ → Bool) (rounds : ℕ) where
  send_eods-suc :
      (left dest n : ℕ) (s t : SHandles F)
      → slot_count s.sent_frag_count dest ≡ ok n
      → send_eod_frag core tests rounds dest n s ≡ ok t
      → (dest + 1) % size_t_mod ≡ dest + 1
      → send_eods core tests rounds (suc left) dest s
        ≡ send_eods core tests rounds left (dest + 1) t
  unfolding send_eods
  send_eods-suc left dest n s t slot first next =
      rw (slot, first) (ap (λ d. send_eods core tests rounds left d t) next)

  send_eods_lem :
      (fair : IsFair tests rounds) (l : List (ℕ × F)) (left dest : ℕ) (s : SHandles F)
      → IsReady s
      → ((k : ℕ) → slot_count s.sent_frag_count k ≡ tally (record s { sent = l }) k)
      → s.dest_start ≤ dest
      → dest + left ≡ s.dest_start + s.dest_count
      → s.dest_start + s.dest_count < size_t_mod
      → EodsFit core s.max_payload_size
      → (t : SHandles F) × (send_eods core tests rounds left dest s ≡ ok t)
        × (t.sent ≡ s.sent ++ eods core l left dest)
  unfolding send_eods send_eod_frag
  send_eods_lem fair l zero dest s v counted low end below fit = (s, refl, sym (append-nil s.sent))
  send_eods_lem fair l (suc left) dest s v counted low end below fit =
      let n : ℕ = sent_to dest l % size_t_mod in
      let slot = counted dest ∙ tally_in (record s { sent = l }) dest low (omega (arith, end)) in
      elim (send_frag_to_lem core tests rounds fair (core.eod_frag n) dest s v) [
        | inl (large, _) ↦ absurd (let small = fit n in omega (arith, large, small))
        | inr (t, first, ready, sent, counter, settings) ↦
            let (size, count, start, _) = settings in
            let next : (dest + 1) % size_t_mod ≡ dest + 1 = omega (arith, end, below) in
            let (u, run, others) =
              send_eods_lem fair l left (dest + 1) t ready
                (λ k.
                  ap (λ c. slot_count c k) counter
                  ∙ counted k
                  ∙ tally_cong (record s { sent = l }) (record t { sent = l }) l k start count refl)
                (omega (arith, start)) (omega (arith, start, count, end))
                (omega (arith, start, count, below))
                (λ m. let small = fit m in omega (arith, small, size)) in
            (
              u,
              send_eods-suc left dest n s t slot first next ∙ run,
              others
                  ∙ ap (λ x. x ++ eods core l left (dest + 1)) sent
                  ∙ append_assoc s.sent ((dest, core.eod_frag n) ∷ [])
                      (eods core l left (dest + 1)),
            )
      ]

  -- Given that MPI makes progress and that every end-of-data fragment fits, the destructor of an
  -- open object sends each destination one end-of-data fragment, which carries the number of the
  -- messages to it modulo 2^64, and leaves no request pending.
  pub close_lem :
      (fair : IsFair tests rounds) (s : SHandles F)
      → IsOpen s
      → EodsFit core s.max_payload_size
      → (t : SHandles F) × (close core tests rounds s ≡ ok t)
        × (t.sent ≡ s.sent ++ eods core s.sent s.dest_count s.dest_start)
        × (t.reqs ≡ replicate t.buffer_count true)
  unfolding close wait_all
  close_lem fair s v fit =
      let (t, run, sent) =
        send_eods_lem fair s.sent s.dest_count s.dest_start s v.ready v.counted (omega arith)
          (omega arith) v.below fit in
      (wait_all t, rw run refl, sent, refl)

  unfoldable pub send_all : List F → SHandles F → Outcome (SHandles F)
  send_all [] s = ok s
  send_all (f ∷ fs) s = send_fragment core tests rounds f s >>= λ r. send_all fs r.1

  send_all_lem :
      (fair : IsFair tests rounds) (fs : List F) (s : SHandles F)
      → IsOpen s
      → All (CanSend core s.max_payload_size) fs
      → (t : SHandles F) × (send_all fs s ≡ ok t) × Sends (all_messages core s fs) s t
  unfolding send_all
  send_all_lem fair [] s v all = (
    s,
    refl,
    record {
      opened = v;
      messages_sent = sym (append-nil s.sent);
      settings = (refl, refl, refl, refl);
    },
  )
  send_all_lem fair (f ∷ fs) s v all = elim (send_fragment_lem core tests rounds fair f s v) [
    | inl (eod, _) ↦ absurd (all.0.0 eod)
    | inr (inl (_, large, _)) ↦ absurd (let small = all.0.1 in omega (arith, large, small))
    | inr (inr (dest, t, _, _, first, sends)) ↦
        let (u, run, others) =
          send_all_lem fair fs t sends.opened
            (subst (λ b. All (CanSend core b) fs) (sym sends.settings.0) all.1) in
        (
          u,
          rw first run,
          Sends-trans sends
              (subst (λ m. Sends m t u) (all_messages_cong core s t fs sends.settings) others),
        )
  ]

  -- A sender from its construction to its destruction, in either mode, with at least one buffer
  -- and one destination, and with ranks below 2^64. Given that MPI makes progress, that the
  -- fragments are data that fits, and that every end-of-data fragment fits: the fragments go to
  -- the destination of their sequence ID, or each to all, in their order, and then each
  -- destination gets an end-of-data fragment with the number of the messages that it got, modulo
  -- 2^64.
  pub send_all-close :
      (fair : IsFair tests rounds) (buffers size n start : ℕ) (broadcast synchronous : Bool)
      → 0 < buffers
      → 0 < n
      → start + n < size_t_mod
      → EodsFit core size
      → (fs : List F) → All (CanSend core size) fs
      → (t : SHandles F) × (send_all fs (SHandles.new buffers size n start broadcast synchronous)
            >>= close core tests rounds
          ≡ ok t)
        × (t.sent
            ≡ all_messages core (SHandles.new buffers size n start broadcast synchronous) fs
              ++ eods core
                  (all_messages core (SHandles.new buffers size n start broadcast synchronous) fs)
                  n
                  start)
  unfolding SHandles.new
  send_all-close fair buffers size n start to_all synchronous a b c fit fs all =
      let s = SHandles.new buffers size n start to_all synchronous in
      let v = new-IsOpen buffers size n start to_all synchronous a b c in
      let (t, first, sends) = send_all_lem fair fs s v all in
      let (u, last, ends, _) =
        close_lem fair t sends.opened (subst (EodsFit core) (sym sends.settings.0) fit) in
      (
        u,
        rw first last,
        ends ∙ ends_cong core sends.messages_sent sends.settings.1 sends.settings.2,
      )
