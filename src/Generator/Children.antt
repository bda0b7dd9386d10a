-- ===== src/Generator/Children.antt =====
-- What a composite generator promises of its children.
use fnal_artdaq.Base.{
  suc, subst, ℕ, ◌≡◌, refl, sym, ap, ◌∙◌, List, [], ◌∷◌, Bool, true, false, ◌||◌, ok, if◌then◌else◌,
  ◌⊎◌, inl, inr, Bool-cases, All, length, arith,
}
use fnal_artdaq.Generator.{ℤ, pos, Generator, Virtuals, Effects, apply, get_next, start_cmd}
use fnal_artdaq.Generator.Composite.{Child, forwards, start, get_next_}

abbrev pub any_active : {D : Type 0} → List (Child D) → Bool
any_active [] = false
any_active (c ∷ children) = c.active || any_active children

module _ {D F : Type 0} (v : Virtuals D F) where
  -- A child before and after a round: it is asked once if it is active, and its answer is whether it
  -- stays active; otherwise it is left alone.
  abbrev pub Asked : Child D → Child D → Type 0
  Asked c d =
      ((c.active ≡ false) × (d ≡ c))
      ⊎ ((frags : List F) × (c.active ≡ true)
          × (d ≡ record {
            active = (get_next v frags c.generator).0;
            generator = (get_next v frags c.generator).2;
          }))

  abbrev pub AllAsked : List (Child D) → List (Child D) → Type 0
  AllAsked [] [] = Unit
  AllAsked (c ∷ cs) (d ∷ ds) = Asked c d × AllAsked cs ds
  AllAsked [] (d ∷ ds) = ⊥
  AllAsked (c ∷ cs) [] = ⊥

  abbrev Round : Type 0
  Round = Bool × List F × List (Child D)

  -- A round that asks the child first, and one that skips it.
  abbrev asking : List F → Child D → List (Child D) → Round
  asking frags c children =
      let asked = get_next v frags c.generator in
      let after = get_next_ v asked.1 children in
      (asked.0 || after.0, after.1, record { active = asked.0; generator = asked.2 } ∷ after.2)

  abbrev skipping : List F → Child D → List (Child D) → Round
  skipping frags c children =
      let after = get_next_ v frags children in (after.0, after.1, c ∷ after.2)

  get_next_-asking :
      (frags : List F) (c : Child D) (children : List (Child D))
      → c.active ≡ true
      → get_next_ v frags (c ∷ children) ≡ asking frags c children
  unfolding get_next_
  get_next_-asking frags c children e =
      ap (λ b. if b then asking frags c children else skipping frags c children) e

  get_next_-skipping :
      (frags : List F) (c : Child D) (children : List (Child D))
      → c.active ≡ false
      → get_next_ v frags (c ∷ children) ≡ skipping frags c children
  unfolding get_next_
  get_next_-skipping frags c children e =
      ap (λ b. if b then asking frags c children else skipping frags c children) e

  get_next_-nil : (frags : List F) → get_next_ v frags [] ≡ (false, frags, [])
  unfolding get_next_
  get_next_-nil frags = refl

  abbrev RoundIsRight : List (Child D) → Round → Type 0
  RoundIsRight children r = AllAsked children r.2 × (r.0 ≡ any_active r.2)

  -- `getNext_` asks each active child once and no other, and returns true exactly if some child is
  -- active afterwards.
  pub get_next__lem :
      (frags : List F) (children : List (Child D))
      → AllAsked children (get_next_ v frags children).2
        × ((get_next_ v frags children).0 ≡ any_active (get_next_ v frags children).2)
  get_next__lem frags [] = subst (RoundIsRight []) (sym (get_next_-nil frags)) (tt, refl)
  get_next__lem frags (c ∷ children) = elim (Bool-cases c.active) [
    | inl e ↦
        let asked = get_next v frags c.generator in
        let (all, any) = get_next__lem asked.1 children in
        subst (RoundIsRight (c ∷ children)) (sym (get_next_-asking frags c children e))
          ((inr (frags, e, refl), all), ap (λ x. asked.0 || x) any)
    | inr e ↦
        let (all, any) = get_next__lem frags children in
        subst (RoundIsRight (c ∷ children)) (sym (get_next_-skipping frags c children e)) (
          (inl (e, refl), all),
          any ∙ sym (ap (λ b. b || any_active (get_next_ v frags children).2) e),
        )
  ]

  -- Once no child is active, `getNext_` returns false and changes nothing.
  pub get_next__drained :
      (frags : List F) (children : List (Child D))
      → any_active children ≡ false
      → get_next_ v frags children ≡ (false, frags, children)
  get_next__drained frags [] drained = get_next_-nil frags
  get_next__drained frags (c ∷ children) drained = elim (Bool-cases c.active) [
    | inl e ↦
        absurd
          (let bad = ap (λ b. b || any_active children) (sym e) ∙ drained in ground (arith, bad))
    | inr e ↦
        let others = sym (ap (λ b. b || any_active children) e) ∙ drained in
        get_next_-skipping frags c children e
        ∙ ap {A = Round} (λ r. (r.0, r.1, c ∷ r.2)) (get_next__drained frags children others)
  ]

  -- What a start leaves.
  abbrev pub Started : ℤ → ℕ → ℕ → Child D → Type 0
  Started run timeout timestamp c =
      (c.active ≡ true)
      × (c.generator.run_number ≡ run)
      × (c.generator.subrun_number ≡ pos 1)
      × (c.generator.timeout ≡ timeout)
      × (c.generator.timestamp ≡ timestamp)
      × (c.generator.should_stop ≡ false)

  start_cmd-Started :
      (n timeout timestamp : ℕ) (c : Child D)
      → ((g : Generator D) → (e : Effects D) × (v.start g ≡ ok e))
      → (h : Generator D) × (start_cmd v (pos n) timeout timestamp c.generator ≡ ok h)
        × Started (pos n) timeout timestamp (record { active = true; generator = h })
  unfolding start_cmd
  start_cmd-Started n timeout timestamp c starts =
      let started = record (c.generator) {
        timeout = timeout;
        timestamp = timestamp;
        ev_counter = 1;
        should_stop = false;
        exception = false;
        run_number = pos n;
        subrun_number = pos 1;
      } in
      let (e, run) = starts started in
      (apply started e, rw run refl, (refl, refl, refl, refl, refl, refl))

  -- If the derived class starts, a start with a run number that is not negative activates every
  -- child, gives it the run number, subrun 1, the timeout and the timestamp, and takes back a stop.
  pub start_lem :
      (n timeout timestamp : ℕ) (children : List (Child D))
      → ((g : Generator D) → (e : Effects D) × (v.start g ≡ ok e))
      → (started : List (Child D)) × (start v (pos n) timeout timestamp children ≡ ok started)
        × (length started ≡ length children)
        × All (Started (pos n) timeout timestamp) started
  unfolding start forwards
  start_lem n timeout timestamp [] starts = ([], refl, refl, tt)
  start_lem n timeout timestamp (c ∷ children) starts =
      let (h, first, right) = start_cmd-Started n timeout timestamp c starts in
      let (others, rest, size, all) = start_lem n timeout timestamp children starts in
      (
        record { active = true; generator = h } ∷ others,
        rw (first, rest) refl,
        ap suc size,
        (right, all),
      )
