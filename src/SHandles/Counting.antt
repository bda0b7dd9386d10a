-- ===== src/SHandles/Counting.antt =====
-- The counts of the sends, and the end-of-data fragments that report them.
use fnal_artdaq.Base.{
  mod-lt, inl, inr, ℕ, zero, suc, ◌+◌, ◌%◌, ◌≤◌, ◌<◌, ◌≡◌, refl, sym, ap, ◌∙◌, List, [], ◌∷◌, ◌++◌,
  Bool, Outcome, ok, fault, ◌>>=◌, ltb, ◌==◌, if◌then◌else◌, arith, logic_error, out_of_bounds,
  append_assoc, append-nil,
}
use fnal_artdaq.ArtdaqCore.{ArtdaqCore}
use fnal_artdaq.FragCounter.{FragCounter, size_t_mod, slot_count}
use fnal_artdaq.FragCounter.Counts.{Increments, slot-Increments}
use fnal_artdaq.SHandles.{SHandles, calc_dest, send_counted, broadcast}
use fnal_artdaq.SHandles.Sending.{IsReady, IsFair, SameSettings, send_frag_to_lem}

-- How many of the messages went to the rank `dest`.
abbrev pub sent_to : {F : Type 0} → ℕ → List (ℕ × F) → ℕ
sent_to dest [] = 0
sent_to dest ((d, f) ∷ rest) = (if d == dest then 1 else 0) + sent_to dest rest

-- The answer of `slotCount(dest)` that counts the messages.
abbrev pub tally : {F : Type 0} → SHandles F → ℕ → Outcome ℕ
tally s dest =
    if ltb dest s.dest_start
    then fault logic_error
    else if ltb dest (s.dest_start + s.dest_count)
    then ok (sent_to dest s.sent % size_t_mod)
    else fault out_of_bounds

-- An object that sends: there is a buffer and a destination, the ranks are below 2^64, and the
-- counts are those of the messages sent.
pub record IsOpen {F : Type 0} (s : SHandles F) : Type 0 where
  pub ready : IsReady s
  pub some_dest : 0 < s.dest_count
  pub below : s.dest_start + s.dest_count < size_t_mod
  pub counted : (dest : ℕ) → slot_count s.sent_frag_count dest ≡ tally s dest

sent_to-append :
    {F : Type 0} (dest : ℕ) (l : List (ℕ × F)) (d : ℕ) (f : F)
    → sent_to dest (l ++ (d, f) ∷ []) ≡ sent_to dest l + (if d == dest then 1 else 0)
sent_to-append dest [] d f = omega arith
sent_to-append dest (m ∷ l) d f = let h = sent_to-append dest l d f in omega (arith, h)

-- One more message for `dest` is what its slot counts.
tally_one :
    {F : Type 0} (s : SHandles F) (dest k : ℕ) (f : F)
    → s.dest_start ≤ dest
    → dest < s.dest_start + s.dest_count
    → tally (record s { sent = s.sent ++ (dest, f) ∷ [] }) k
      ≡ (if k == dest then tally s dest >>= (λ n. ok ((n + 1) % size_t_mod)) else tally s k)
tally_one s dest k f low high = ground (arith, sent_to-append k s.sent dest f)

pub tally_in :
    {F : Type 0} (s : SHandles F) (dest : ℕ)
    → s.dest_start ≤ dest
    → dest < s.dest_start + s.dest_count
    → tally s dest ≡ ok (sent_to dest s.sent % size_t_mod)
tally_in s dest low high = ground arith

-- Only the messages and the range matter.
pub tally_cong :
    {F : Type 0} (s u : SHandles F) (l : List (ℕ × F)) (k : ℕ)
    → u.dest_start ≡ s.dest_start
    → u.dest_count ≡ s.dest_count
    → u.sent ≡ l
    → tally (record s { sent = l }) k ≡ tally u k
tally_cong s u l k a b c = rw (a, b, c) refl

Increments-tally :
    {F : Type 0} (s : SHandles F) (dest k : ℕ) (f : F) {d : FragCounter}
    → IsOpen s
    → s.dest_start ≤ dest
    → dest < s.dest_start + s.dest_count
    → Increments s.sent_frag_count dest 1 d
    → slot_count d k ≡ tally (record s { sent = s.sent ++ (dest, f) ∷ [] }) k
Increments-tally s dest k f v low high i =
    i.reads k ∙ rw (v.counted dest, v.counted k) (sym (tally_one s dest k f low high))

-- In an open object the destination of a sequence ID is one of the range, and two sequence IDs
-- share it exactly when they are equal modulo the number of destinations.
pub calc_dest_lem :
    {F : Type 0} (s : SHandles F)
    → IsOpen s
    → (x y : ℕ)
    → (d : ℕ) × (e : ℕ) × (calc_dest s x ≡ ok d)
      × (calc_dest s y ≡ ok e)
      × (s.dest_start ≤ d)
      × (d < s.dest_start + s.dest_count)
      × ((d == e) ≡ (x % s.dest_count == y % s.dest_count))
unfolding calc_dest
calc_dest_lem s v x y =
    let hx = mod-lt x v.some_dest in
    let hy = mod-lt y v.some_dest in
    (
      x % s.dest_count + s.dest_start,
      y % s.dest_count + s.dest_start,
      ground (arith, hx, v.some_dest, v.below),
      ground (arith, hy, v.some_dest, v.below),
      omega arith,
      omega (arith, hx),
      ground arith,
    )

-- What a successful call that sends messages promises.
pub record Sends {F : Type 0} (messages : List (ℕ × F)) (s t : SHandles F) : Type 0 where
  pub opened : IsOpen t
  pub messages_sent : t.sent ≡ s.sent ++ messages
  pub settings : SameSettings s t

pub Sends-trans :
    {F : Type 0} {l m : List (ℕ × F)} {s t u : SHandles F}
    → Sends l s t
    → Sends m t u
    → Sends (l ++ m) s u
Sends-trans {l = l} {m} {s} {t} {u} a b = record {
  opened = b.opened;
  messages_sent = b.messages_sent ∙ ap (λ x. x ++ m) a.messages_sent ∙ append_assoc s.sent l m;
  settings = (
    b.settings.0 ∙ a.settings.0,
    b.settings.1 ∙ a.settings.1,
    b.settings.2 ∙ a.settings.2,
    b.settings.3 ∙ a.settings.3,
  );
}

-- The same fragment to each of `n` ranks from `dest` on.
abbrev pub to_each : {F : Type 0} → F → ℕ → ℕ → List (ℕ × F)
to_each f zero dest = []
to_each f (suc n) dest = (dest, f) ∷ to_each f n (dest + 1)

module _ {F E : Type 0} (core : ArtdaqCore F E) (tests : ℕ → Bool) (rounds : ℕ) where
  pub send_counted_lem :
      (fair : IsFair tests rounds) (f : F) (dest : ℕ) (s : SHandles F)
      → IsOpen s
      → s.dest_start ≤ dest
      → dest < s.dest_start + s.dest_count
      → core.data_size f ≤ s.max_payload_size
      → (t : SHandles F) × (send_counted core tests rounds f dest s ≡ ok t)
        × Sends ((dest, f) ∷ []) s t
  unfolding send_counted
  send_counted_lem fair f dest s v low high fits =
      elim (send_frag_to_lem core tests rounds fair f dest s v.ready) [
        | inl (large, _) ↦ absurd (omega (arith, large, fits))
        | inr (t, run, ready, sent, counter, settings) ↦
            let (d, counts, i) =
              slot-Increments s.sent_frag_count dest (sent_to dest s.sent % size_t_mod)
                (v.counted dest ∙ tally_in s dest low high) in
            let u = record t { sent_frag_count = d } in
            (
              u,
              rw (run, counter, counts) refl,
              record {
                opened = record {
                  ready = record { sized = ready.sized; placed = ready.placed };
                  some_dest = rw settings.1 v.some_dest;
                  below = rw (settings.1, settings.2) v.below;
                  counted = λ k.
                      Increments-tally s dest k f v low high i
                      ∙ tally_cong s u (s.sent ++ (dest, f) ∷ []) k settings.2 settings.1 sent;
                };
                messages_sent = sent;
                settings = settings;
              },
            )
      ]

  pub broadcast_lem :
      (fair : IsFair tests rounds) (f : F) (left dest : ℕ) (s : SHandles F)
      → IsOpen s
      → s.dest_start ≤ dest
      → dest + left ≡ s.dest_start + s.dest_count
      → core.data_size f ≤ s.max_payload_size
      → (t : SHandles F) × (broadcast core tests rounds f left dest s ≡ ok t)
        × Sends (to_each f left dest) s t
  unfolding broadcast
  broadcast_lem fair f zero dest s v low end fits = (
    s,
    refl,
    record {
      opened = v;
      messages_sent = sym (append-nil s.sent);
      settings = (refl, refl, refl, refl);
    },
  )
  broadcast_lem fair f (suc left) dest s v low end fits =
      let (t, first, sends) = send_counted_lem fair f dest s v low (omega (arith, end)) fits in
      let (size, n, start, _) = sends.settings in
      let (u, run, others) =
        broadcast_lem fair f left (dest + 1) t sends.opened (omega (arith, start))
          (omega (arith, start, n, end)) (omega (arith, size, fits)) in
      let next : (dest + 1) % size_t_mod ≡ dest + 1 = omega (arith, end, v.below) in
      (u, rw (first, next) run, Sends-trans sends others)
