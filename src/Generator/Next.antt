-- ===== src/Generator/Next.antt =====
-- A generator that has thrown is not asked again until it is started.
use fnal_artdaq.Base.{
  arith, ℕ, zero, suc, ◌≡◌, refl, ap, ◌∙◌, List, [], ◌∷◌, Bool, true, false, none, some,
  if◌then◌else◌, replicate, inl, inr, Bool-cases,
}
use fnal_artdaq.Generator.{apply, Generator, Virtuals, get_next}

module _ {D F : Type 0} (v : Virtuals D F) where
  -- So many calls of `getNext`: their results, the fragments, the generator.
  abbrev pub calls : ℕ → List F → Generator D → List Bool × List F × Generator D
  calls zero output g = ([], output, g)
  calls (suc n) output g =
      let first = get_next v output g in
      let rest = calls n first.1 first.2 in (first.0 ∷ rest.0, rest.1, rest.2)

  get_next-idle :
      (output : List F) (g : Generator D)
      → g.exception ≡ true
      → get_next v output g ≡ (false, output, g)
  unfolding get_next
  get_next-idle output g e =
      ap
        (λ b.
          if b
          then (false, output, g)
          else elim ((v.get_next_ output g).0) as (λ x. Bool × List F × Generator D) [
            | none ↦ (
              false,
              (v.get_next_ output g).1,
              record (apply g (v.get_next_ output g).2) { exception = true },
            )
            | some result ↦ (result, (v.get_next_ output g).1, apply g (v.get_next_ output g).2)
          ])
        e

  get_next-thrown :
      (output : List F) (g : Generator D)
      → g.exception ≡ false
      → (v.get_next_ output g).0 ≡ none
      → get_next v output g ≡ (
        false,
        (v.get_next_ output g).1,
        record (apply g (v.get_next_ output g).2) { exception = true },
      )
  unfolding get_next
  get_next-thrown output g e thrown = ground (arith, e, thrown)

  thrown-stops :
      (output : List F) (g : Generator D)
      → (v.get_next_ output g).0 ≡ none
      → ((get_next v output g).0 ≡ false) × ((get_next v output g).2.exception ≡ true)
  thrown-stops output g thrown = elim (Bool-cases g.exception) [
    | inl e ↦ let h = get_next-idle output g e in (ap (λ r. r.0) h, ap (λ r. r.2.exception) h ∙ e)
    | inr e ↦
        let h = get_next-thrown output g e thrown in (ap (λ r. r.0) h, ap (λ r. r.2.exception) h)
  ]

  calls-idle :
      (n : ℕ) (output : List F) (g : Generator D)
      → g.exception ≡ true
      → calls n output g ≡ (replicate n false, output, g)
  calls-idle zero output g e = refl
  calls-idle (suc n) output g e =
      ap {A = Bool × List F × Generator D}
        (λ r. (r.0 ∷ (calls n r.1 r.2).0, (calls n r.1 r.2).1, (calls n r.1 r.2).2))
        (get_next-idle output g e)
      ∙ ap {A = List Bool × List F × Generator D} (λ r. (false ∷ r.0, r.1, r.2))
          (calls-idle n output g e)

  -- A call in which the derived class throws returns false, and so does every call of `getNext`
  -- that follows it without a command in between; none of them asks the derived class again or adds
  -- a fragment.
  pub calls-exception :
      (n : ℕ) (output : List F) (g : Generator D)
      → (v.get_next_ output g).0 ≡ none
      → ((get_next v output g).0 ≡ false)
        × (calls n (get_next v output g).1 (get_next v output g).2
            ≡ (replicate n false, (get_next v output g).1, (get_next v output g).2))
  calls-exception n output g thrown =
      let (answer, stopped) = thrown-stops output g thrown in
      (answer, calls-idle n (get_next v output g).1 (get_next v output g).2 stopped)
