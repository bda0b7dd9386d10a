-- ===== src/RawEventQueueReader/Belonging.antt =====
-- Every event that art gets belongs to the subrun that is current when it gets it.
use fnal_artdaq.Base.{
  ℕ, ◌≡◌, ◌<◌, refl, ap, ◌∙◌, Bool, true, false, not, ◌&&◌, Option, none, some, Outcome, ok,
  if◌then◌else◌, ◌==◌, ◌⊎◌, inl, inr, Bool-cases, arith,
}
use fnal_artdaq.ArtdaqCore.{ArtdaqCore}
use fnal_artdaq.RawEventQueueReader.Reading.{Reads, dequeue_lem}
use fnal_artdaq.RawEventQueueReader.{
  count_type, SubRunId, EventId, RawEventQueueReader, Principals, is_run, is_sub_run, is_number,
  has_sub_run, data_event, end_of_subrun_event, emit, dequeue, read_next,
}

-- art makes a principal that it is given the current one.
abbrev pub current : {A : Type 0} → Option A → Option A → Option A
current old none = old
current old (some new) = some new

is_number-eq : (o : Option ℕ) (n : ℕ) → is_number o n ≡ true → o ≡ some n
is_number-eq none n h = ground (arith, h)
is_number-eq (some m) n h = let e : m ≡ n = ground (arith, h) in ap some e

is_run-eq : (in_r : Option (Option ℕ)) (n : ℕ) → is_run in_r n ≡ true → in_r ≡ some (some n)
is_run-eq none n h = ground (arith, h)
is_run-eq (some r) n h = ap some (is_number-eq r n h)

both : (a b : Bool) → (a && b) ≡ true → (a ≡ true) × (b ≡ true)
both true b h = (refl, h)
both false b h = (h, ground (arith, h))

is_sub_run-eq :
    (in_sr : Option SubRunId) (run sub : ℕ)
    → is_sub_run in_sr run sub ≡ true
    → in_sr ≡ some (record { run = some run; sub_run = some sub })
is_sub_run-eq none run sub h = ground (arith, h)
is_sub_run-eq (some id) run sub h =
    let (a, b) = both (is_number id.run run) (is_number id.sub_run sub) h in
    let x = is_number-eq id.run run a in
    let y = is_number-eq id.sub_run sub b in ap some (λ i. record { run = x i; sub_run = y i })

current_new :
    {A : Type 0} (old : Option A) (b : Bool) (new : A)
    → (b ≡ true → old ≡ some new)
    → current old (if b then none else some new) ≡ some new
current_new old true new h = h refl
current_new old false new h = refl

-- The event belongs to the current subrun, and that to the current run.
abbrev pub Belongs : Option (Option ℕ) → Option SubRunId → Principals → Type 0
Belongs in_r in_sr out =
    (e : EventId) × (out.out_e ≡ some e)
    × (current in_sr out.out_sr ≡ some e.in_sub_run)
    × (current in_r out.out_r ≡ some e.in_sub_run.run)

module _ {F E : Type 0} (core : ArtdaqCore F E) where
  data_event-Belongs :
      (in_r : Option (Option ℕ)) (in_sr : Option SubRunId) (e : E)
      → Belongs in_r in_sr (data_event core in_r in_sr e)
  unfolding data_event
  data_event-Belongs in_r in_sr e = (
    _,
    refl,
    current_new in_sr (is_sub_run in_sr (core.run_of e) (core.subrun_of e)) _
        (is_sub_run-eq in_sr (core.run_of e) (core.subrun_of e)),
    current_new in_r (is_run in_r (core.run_of e)) _ (is_run-eq in_r (core.run_of e)),
  )

  end_of_subrun_event-Belongs :
      (in_r : Option (Option ℕ)) (in_sr : Option SubRunId) (e : E)
      → Belongs in_r in_sr (end_of_subrun_event core in_r in_sr e)
  unfolding end_of_subrun_event
  end_of_subrun_event-Belongs in_r in_sr e = elim (Bool-cases (is_run in_r (core.run_of e))) [
    | inr new ↦ rw new (_, refl, refl, refl)
    | inl same ↦ elim (Bool-cases (has_sub_run in_sr (core.subrun_of e))) [
      | inl here ↦ rw (same, here) (_, refl, refl, is_run-eq in_r (core.run_of e) same)
      | inr there ↦ rw (same, there) (_, refl, refl, is_run-eq in_r (core.run_of e) same)
    ]
  ]

  emit-Belongs :
      (in_r : Option (Option ℕ)) (in_sr : Option SubRunId) (e : E) (s : RawEventQueueReader)
      → Belongs in_r in_sr (emit core in_r in_sr e s).1
  unfolding emit
  emit-Belongs in_r in_sr e s =
      let single = core.num_fragments e == 1 in
      elim (Bool-cases (single && (count_type core core.end_of_run (core.contents e) == 1))) [
        | inl run ↦ rw run (_, refl, refl, refl)
        | inr no_run ↦
            elim (Bool-cases
              (single && (count_type core core.end_of_subrun (core.contents e) == 1))) [
                | inl sub_run ↦ rw (no_run, sub_run) (end_of_subrun_event-Belongs in_r in_sr e)
                | inr no_sub_run ↦ rw (no_run, no_sub_run) (data_event-Belongs in_r in_sr e)
              ]
      ]

abbrev pub nothing : Principals
nothing = record { out_r = none; out_sr = none; out_e = none }

module _ {F E : Type 0} (core : ArtdaqCore F E) where
  -- An event of one fragment, of the type that ends a subrun.
  abbrev pub ends_subrun : E → Bool
  ends_subrun e =
      (core.num_fragments e == 1)
      && (not (count_type core core.end_of_run (core.contents e) == 1)
          && (count_type core core.end_of_subrun (core.contents e) == 1))

  emit-closes :
      (in_r : Option (Option ℕ)) (in_sr : Option SubRunId) (e : E) (s : RawEventQueueReader)
      → s.output_file_close_needed ≡ false
      → (emit core in_r in_sr e s).0 ≡ record s { output_file_close_needed = ends_subrun e }
  unfolding emit
  emit-closes in_r in_sr e s closed =
      let same : s ≡ record s { output_file_close_needed = false } =
        ap (λ b. record s { output_file_close_needed = b }) closed in
      elim (Bool-cases (core.num_fragments e == 1)) [
        | inr many ↦ rw many same
        | inl single ↦ elim (Bool-cases (count_type core core.end_of_run (core.contents e) == 1)) [
          | inl run ↦ rw (single, run) same
          | inr no_run ↦
              elim (Bool-cases (count_type core core.end_of_subrun (core.contents e) == 1)) [
                | inl sub_run ↦ rw (single, no_run, sub_run) refl
                | inr no_sub_run ↦ rw (single, no_run, no_sub_run) same
              ]
        ]
      ]

  -- Three ways for a call to end: with the flag of the output file, with no event, with an event.
  abbrev Ends :
      (ℕ → Option (Option E))
      → Option (Option ℕ)
      → Option SubRunId
      → RawEventQueueReader
      → Outcome (Bool × Option Principals × RawEventQueueReader)
      → Type 0
  Ends deq in_r in_sr s result =
      ((s.output_file_close_needed ≡ true)
        × (result ≡ ok (false, none, record s { output_file_close_needed = false })))
      ⊎ ((s.output_file_close_needed ≡ false)
          × (Reads deq s.resume_after_timeout 0 none
              ⊎ Reads deq s.resume_after_timeout 0 (some none))
          × (result ≡ ok (false, some nothing, record s { shutdown_msg_received = true })))
      ⊎ ((e : E) × (out : Principals) × (s.output_file_close_needed ≡ false)
          × Reads deq s.resume_after_timeout 0 (some (some e))
          × (result ≡ ok (true, some out, record s { output_file_close_needed = ends_subrun e }))
          × Belongs in_r in_sr out)

  read_next_closed :
      (deq : ℕ → Option (Option E)) (rounds : ℕ) (in_r : Option (Option ℕ))
      (in_sr : Option SubRunId) (s : RawEventQueueReader)
      → s.output_file_close_needed ≡ true
      → read_next core deq rounds in_r in_sr s
        ≡ ok (false, none, record s { output_file_close_needed = false })
  unfolding read_next
  read_next_closed deq rounds in_r in_sr s flag = ground (arith, flag)

  read_next_popped :
      (deq : ℕ → Option (Option E)) (rounds : ℕ) (in_r : Option (Option ℕ))
      (in_sr : Option SubRunId) (s : RawEventQueueReader) (r : Option (Option E))
      → dequeue deq s.resume_after_timeout rounds 0 ≡ ok r
      → Reads deq s.resume_after_timeout 0 r
      → s.output_file_close_needed ≡ false
      → Ends deq in_r in_sr s (read_next core deq rounds in_r in_sr s)
  unfolding read_next
  read_next_popped deq rounds in_r in_sr s none run reads closed =
      inr (inl (closed, inl reads, ground (arith, run, closed)))
  read_next_popped deq rounds in_r in_sr s (some none) run reads closed =
      inr (inl (closed, inr reads, ground (arith, run, closed)))
  read_next_popped deq rounds in_r in_sr s (some (some e)) run reads closed = inr (
      inr (
        e,
        (emit core in_r in_sr e s).1,
        closed,
        reads,
        ground (arith, run, closed, emit-closes in_r in_sr e s closed),
        emit-Belongs core in_r in_sr e s,
      ))

  -- `readNext`, if one of the attempts to read the queue succeeds. With the flag that an
  -- end-of-subrun marker sets, it returns false, reads nothing and resets the flag. Otherwise it
  -- reads the queue: if it times out, or gets a null pointer, it returns false without principals and
  -- notes the shutdown; if it gets an event, it returns true with an event that belongs to the subrun
  -- that is then the current one, which belongs to the run that is then the current one, and sets the
  -- flag exactly for an end-of-subrun marker.
  pub read_next_lem :
      (deq : ℕ → Option (Option E)) (rounds n : ℕ) (p : Option E) (in_r : Option (Option ℕ))
      (in_sr : Option SubRunId) (s : RawEventQueueReader)
      → deq n ≡ some p
      → n < rounds
      → ((s.output_file_close_needed ≡ true)
          × (read_next core deq rounds in_r in_sr s
              ≡ ok (false, none, record s { output_file_close_needed = false })))
        ⊎ ((s.output_file_close_needed ≡ false)
            × (Reads deq s.resume_after_timeout 0 none
                ⊎ Reads deq s.resume_after_timeout 0 (some none))
            × (read_next core deq rounds in_r in_sr s
                ≡ ok (false, some nothing, record s { shutdown_msg_received = true })))
        ⊎ ((e : E) × (out : Principals) × (s.output_file_close_needed ≡ false)
            × Reads deq s.resume_after_timeout 0 (some (some e))
            × (read_next core deq rounds in_r in_sr s
                ≡ ok (true, some out, record s { output_file_close_needed = ends_subrun e }))
            × Belongs in_r in_sr out)
  read_next_lem deq rounds n p in_r in_sr s e low = elim (Bool-cases s.output_file_close_needed) [
    | inl flag ↦ inl (flag, read_next_closed deq rounds in_r in_sr s flag)
    | inr closed ↦
        let (r, run, reads) =
          dequeue_lem deq s.resume_after_timeout rounds n 0 (ap deq (omega arith) ∙ e) low in
        read_next_popped deq rounds in_r in_sr s r run reads closed
  ]
