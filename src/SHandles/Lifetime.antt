-- ===== src/SHandles/Lifetime.antt =====
-- A sender from its construction to its end: what `sendFragment` and the destructor send.
use fnal_artdaq.Base.{
  subst, ◌⊎◌, inl, inr, ℕ, zero, suc, ◌+◌, ◌-◌, ◌%◌, ◌≤◌, ◌<◌, ◌≡◌, refl, sym, ap, List, [], ◌∷◌,
  Bool, true, false, ok, fault, ◌==◌, ◌≢◌, if◌then◌else◌, arith, Bool-cases, unimplemented,
  logic_error, dec_lt, length-replicate, ℕ_discrete, mod-lt, replicate, get_elem?-replicate,
  get_elem?-ge,
}
use fnal_artdaq.ArtdaqCore.{ArtdaqCore}
use fnal_artdaq.FragCounter
use fnal_artdaq.FragCounter.{FragCounter, size_t_mod, slot_count}
use fnal_artdaq.SHandles.{
  SHandles, calc_dest, send_frag_to, send_counted, broadcast, send_fragment, send_eod_frag,
  send_eods, close, wait_all,
}
use fnal_artdaq.SHandles
use fnal_artdaq.SHandles.Sending.{IsFair}
use fnal_artdaq.SHandles.Counting.{IsOpen, Sends, to_each, send_counted_lem, broadcast_lem}

-- A new object has sent nothing and is open.
pub new-IsOpen :
    {F : Type 0} (buffers size n start : ℕ) (broadcast synchronous : Bool)
    → 0 < buffers
    → 0 < n
    → start + n < size_t_mod
    → IsOpen (SHandles.new {F = F} buffers size n start broadcast synchronous)
unfolding SHandles.new FragCounter.new slot_count
new-IsOpen buffers size n start to_all synchronous a b c = record {
  ready = record { sized = length-replicate buffers true; placed = a };
  some_dest = b;
  below = c;
  counted = λ k. ground (
    arith,
    get_elem?-replicate {A = ℕ} n (k - start) 0,
    get_elem?-ge {A = ℕ} (replicate n 0) (k - start),
    length-replicate {A = ℕ} n 0,
  );
}

-- The messages of one call of `sendFragment`.
abbrev pub messages : {F E : Type 0} → ArtdaqCore F E → SHandles F → F → List (ℕ × F)
messages core s f =
    if s.broadcast_sends
    then to_each f s.dest_count s.dest_start
    else (core.sequence_id f % s.dest_count + s.dest_start, f) ∷ []

messages_all :
    {F E : Type 0} (core : ArtdaqCore F E) (s : SHandles F) (f : F)
    → s.broadcast_sends ≡ true
    → messages core s f ≡ to_each f s.dest_count s.dest_start
messages_all core s f e =
    ap
      (λ b.
        if b
        then to_each f s.dest_count s.dest_start
        else (core.sequence_id f % s.dest_count + s.dest_start, f) ∷ [])
      e

messages_one :
    {F E : Type 0} (core : ArtdaqCore F E) (s : SHandles F) (f : F)
    → s.broadcast_sends ≡ false
    → messages core s f ≡ (core.sequence_id f % s.dest_count + s.dest_start, f) ∷ []
messages_one core s f e =
    ap
      (λ b.
        if b
        then to_each f s.dest_count s.dest_start
        else (core.sequence_id f % s.dest_count + s.dest_start, f) ∷ [])
      e

module _ {F E : Type 0} (core : ArtdaqCore F E) (tests : ℕ → Bool) (rounds : ℕ) where
  regular_is_sent :
      (fair : IsFair tests rounds) (f : F) (s : SHandles F)
      → IsOpen s
      → core.type_code f ≢ core.end_of_data
      → core.data_size f ≤ s.max_payload_size
      → (dest : ℕ) × (t : SHandles F) × (send_fragment core tests rounds f s ≡ ok (dest, t))
        × Sends (messages core s f) s t
  unfolding send_fragment calc_dest
  regular_is_sent fair f s v regular fits =
      let tested : (core.type_code f == core.end_of_data) ≡ false = ground (arith, regular) in
      elim (Bool-cases s.broadcast_sends) [
        | inl all ↦
            let (t, run, sends) =
              broadcast_lem core tests rounds fair f s.dest_count s.dest_start s v (omega arith)
                (omega arith) fits in
            (
              (s.dest_start + s.dest_count) % size_t_mod,
              t,
              ground (arith, tested, all, run),
              subst (λ m. Sends m s t) (sym (messages_all core s f all)) sends,
            )
        | inr one ↦
            let h = mod-lt (core.sequence_id f) v.some_dest in
            let (t, run, sends) =
              send_counted_lem core tests rounds fair f
                (core.sequence_id f % s.dest_count + s.dest_start) s v (omega arith)
                (omega (arith, h)) fits in
            (
              core.sequence_id f % s.dest_count + s.dest_start,
              t,
              ground (arith, tested, one, run, h, v.some_dest, v.below),
              subst (λ m. Sends m s t) (sym (messages_one core s f one)) sends,
            )
      ]

  refuses_eod :
      (f : F) (s : SHandles F)
      → core.type_code f ≡ core.end_of_data
      → send_fragment core tests rounds f s ≡ fault logic_error
  unfolding send_fragment
  refuses_eod f s eod = ground (arith, eod)

  send_counted-large :
      (f : F) (dest : ℕ) (s : SHandles F)
      → s.max_payload_size < core.data_size f
      → send_counted core tests rounds f dest s ≡ fault unimplemented
  unfolding send_counted send_frag_to
  send_counted-large f dest s large = ground arith

  broadcast-large :
      (f : F) (left dest : ℕ) (s : SHandles F)
      → s.max_payload_size < core.data_size f
      → 0 < left
      → broadcast core tests rounds f left dest s ≡ fault unimplemented
  unfolding broadcast
  broadcast-large f zero dest s large h = elim h [ ]
  broadcast-large f (suc left) dest s large h = rw (send_counted-large f dest s large) refl

  refuses_large :
      (f : F) (s : SHandles F)
      → IsOpen s
      → core.type_code f ≢ core.end_of_data
      → s.max_payload_size < core.data_size f
      → send_fragment core tests rounds f s ≡ fault unimplemented
  unfolding send_fragment calc_dest
  refuses_large f s v regular large =
      let n = v.some_dest in
      ground (
        arith,
        regular,
        n,
        broadcast-large f s.dest_count s.dest_start s large n,
        send_counted-large f ((core.sequence_id f % s.dest_count + s.dest_start) % size_t_mod) s
            large,
      )

  -- `sendFragment`, given an open object and an MPI that makes progress: an end-of-data fragment
  -- and one that is too large are refused by an exception; any other is sent, in one message to the
  -- destination of its sequence ID or, if the object broadcasts, in one to every destination, the
  -- counts stay those of the messages, and the settings stay.
  pub send_fragment_lem :
      (fair : IsFair tests rounds) (f : F) (s : SHandles F)
      → IsOpen s
      → ((core.type_code f ≡ core.end_of_data)
          × (send_fragment core tests rounds f s ≡ fault logic_error))
        ⊎ ((core.type_code f ≢ core.end_of_data)
            × (s.max_payload_size < core.data_size f)
            × (send_fragment core tests rounds f s ≡ fault unimplemented))
        ⊎ ((dest : ℕ) × (t : SHandles F) × (core.type_code f ≢ core.end_of_data)
            × (core.data_size f ≤ s.max_payload_size)
            × (send_fragment core tests rounds f s ≡ ok (dest, t))
            × Sends (messages core s f) s t)
  send_fragment_lem fair f s v = elim (ℕ_discrete (core.type_code f) core.end_of_data) [
    | yes eod ↦ inl (eod, refuses_eod f s eod)
    | no regular ↦ elim (dec_lt s.max_payload_size (core.data_size f)) [
      | yes large ↦ inr (inl (regular, large, refuses_large f s v regular large))
      | no below ↦
          let fits : core.data_size f ≤ s.max_payload_size = omega arith in
          let (dest, t, run, sends) = regular_is_sent fair f s v regular fits in
          inr (inr (dest, t, regular, fits, run, sends))
    ]
  ]
