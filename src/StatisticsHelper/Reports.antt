-- ===== src/StatisticsHelper/Reports.antt =====
-- How often `readyToReport` of artdaq/Application/MPI2/StatisticsHelper.cc says yes.
use fnal_artdaq.Base.{
  ℕ, suc, ◌+◌, ◌%◌, ◌≤◌, ◌<◌, ◌≡◌, ◌≢◌, ◌⊎◌, inl, inr, refl, List, [], ◌∷◌, Bool, true, false,
  Option, none, some, Outcome, ok, ◌∙◌, ◌>>=◌, ltb, ◌==◌, if◌then◌else◌, Bool-cases, fault,
  division_by_zero, arith,
}
use mathlib.Core.Bool.{true≢false}
use fnal_artdaq.StatisticsHelper.{
  advance, Monitoring, Collection, StatisticsHelper, as_size_t, primary, ready_to_report,
}

-- The larger of an index and the index that a call has reached, if it has.
abbrev pub raised : ℕ → Option ℕ → ℕ
raised index none = index
raised index (some reached) = if ltb index reached then reached else index

module _ {D Q : Type 0} (mon : Monitoring D Q) where
  -- The index of the reporting interval that a call has reached: the full duration of the primary
  -- quantity over the length of an interval, at the calls whose count is a multiple of the interval
  -- in fragments.
  abbrev pub reached : ℕ → Collection Q → StatisticsHelper D → Option ℕ
  reached count quantities s = elim (primary mon s quantities) [
    | none ↦ none
    | some q ↦
        if count % as_size_t s.reporting_interval_fragments == 0
        then some (mon.quotient (mon.full_duration q) s.reporting_interval_seconds)
        else none
  ]

  -- The highest index reached by the end of a sequence of calls.
  abbrev pub highest_reached : List (ℕ × Collection Q) → ℕ → StatisticsHelper D → ℕ
  highest_reached [] index s = index
  highest_reached ((count, quantities) ∷ calls) index s =
      highest_reached calls (raised index (reached count quantities s)) s

  -- The helper is as it was, or its index is a larger one.
  abbrev Moves : Option ℕ → StatisticsHelper D → Outcome (StatisticsHelper D × Bool) → Type 0
  Moves reaches s r =
      ((r ≡ ok (s, false))
        × (raised s.previous_reporting_index reaches ≡ s.previous_reporting_index))
      ⊎ ((index : ℕ) × (r ≡ ok (record s { previous_reporting_index = index }, true))
          × (s.previous_reporting_index < index)
          × (raised s.previous_reporting_index reaches ≡ index))

  advance-Moves :
      (index : ℕ) (s : StatisticsHelper D) → Moves (some index) s (ok (advance mon index s))
  unfolding advance
  advance-Moves index s = elim (Bool-cases (ltb s.previous_reporting_index index)) [
    | inl more ↦ inr (index, rw more refl, ground (arith, more), rw more refl)
    | inr same ↦ inl (rw same refl, rw same refl)
  ]

  ready_to_report-Moves :
      (count : ℕ) (quantities : Collection Q) (s : StatisticsHelper D)
      → as_size_t s.reporting_interval_fragments ≢ 0
      → Moves (reached count quantities s) s (ready_to_report mon count quantities s)
  unfolding ready_to_report
  ready_to_report-Moves count quantities s some_interval =
      by_quantity (primary mon s quantities) (count % as_size_t s.reporting_interval_fragments == 0)
        (as_size_t s.reporting_interval_fragments == 0) (ground (arith, some_interval))
    where
      by_quantity :
          (o : Option Q) (due none_due : Bool)
          → none_due ≡ false
          → Moves
              (elim o [
                | none ↦ none
                | some q ↦
                    if due
                    then some (mon.quotient (mon.full_duration q) s.reporting_interval_seconds)
                    else none
              ])
              s
              (elim o [
                | none ↦ ok (s, false)
                | some q ↦
                    if none_due
                    then fault division_by_zero
                    else ok (
                        if due
                        then advance mon
                            (mon.quotient (mon.full_duration q) s.reporting_interval_seconds)
                            s
                        else (s, false))
              ])
      by_quantity none due none_due e = inl (refl, refl)
      by_quantity (some q) true false e =
          advance-Moves (mon.quotient (mon.full_duration q) s.reporting_interval_seconds) s
      by_quantity (some q) false false e = inl (refl, refl)
      by_quantity (some q) due true e = absurd (true≢false e)

  -- The answers to a sequence of calls: the helper at the end, and how many were `true`.
  abbrev pub reports :
      List (ℕ × Collection Q) → StatisticsHelper D → Outcome (StatisticsHelper D × ℕ)
  reports [] s = ok (s, 0)
  reports ((count, quantities) ∷ calls) s = ready_to_report mon count quantities s >>= λ r.
      reports calls r.0 >>= λ n. ok (n.0, if r.1 then suc n.1 else n.1)

  highest_reached-index :
      (calls : List (ℕ × Collection Q)) (index other : ℕ) (s : StatisticsHelper D)
      → highest_reached calls index (record s { previous_reporting_index = other })
        ≡ highest_reached calls index s
  highest_reached-index [] index other s = refl
  highest_reached-index ((count, quantities) ∷ calls) index other s =
      highest_reached-index calls (raised index (reached count quantities s)) other s

  -- If the reporting interval is not zero as a `size_t`, then whatever the counts and the quantities
  -- are, no call faults, and a sequence of calls leaves the helper at the highest index of a
  -- reporting interval that has been reached, at the start or at one of the calls. The calls answer
  -- `true` at most once for each index above the one at the start, and at least once if the index
  -- has moved; if it has not, none does.
  pub reports_lem :
      (calls : List (ℕ × Collection Q)) (s : StatisticsHelper D)
      → as_size_t s.reporting_interval_fragments ≢ 0
      → (t : StatisticsHelper D) × (n : ℕ) × (reports calls s ≡ ok (t, n))
        × (t.previous_reporting_index ≡ highest_reached calls s.previous_reporting_index s)
        × (s.previous_reporting_index + n ≤ t.previous_reporting_index)
        × ((n ≡ 0) ⊎ (s.previous_reporting_index < t.previous_reporting_index))
        × ((1 ≤ n) ⊎ (s.previous_reporting_index ≡ t.previous_reporting_index))
  reports_lem [] s some_interval = (s, 0, refl, refl, omega arith, inl refl, inr refl)
  reports_lem ((count, quantities) ∷ calls) s some_interval =
      elim (ready_to_report-Moves count quantities s some_interval) [
        | inl (same, stays) ↦
            let (t, n, run, highest, bound, moves, says) = reports_lem calls s some_interval in
            (t, n, rw (same, run) refl, rw stays highest, bound, moves, says)
        | inr (index, moved, less, rises) ↦
            let (t, n, run, highest, bound, moves, says) =
              reports_lem calls (record s { previous_reporting_index = index }) some_interval in
            (
              t,
              suc n,
              rw (moved, run) refl,
              rw rises (highest ∙ highest_reached-index calls index index s),
              omega (arith, bound, less),
              inr (omega (arith, bound, less)),
              inl (omega arith),
            )
      ]
