-- ===== src/Tests/Generators.antt =====
-- Generators at concrete inputs.
use fnal_artdaq.Base.{
  ℕ, zero, suc, ◌≡◌, refl, List, [], ◌∷◌, ◌++◌, Bool, true, false, Option, none, some, ok,
  replicate, length, All,
}
use fnal_artdaq.Generator.{ℤ, pos, Generator, Virtuals, Effects, get_next}
use fnal_artdaq.Generator
use fnal_artdaq.Generator.Composite.{Child, start, get_next_}
use fnal_artdaq.Generator.Next.{calls, calls-exception}
use fnal_artdaq.Generator.Children.{
  any_active, AllAsked, Started, get_next__lem, get_next__drained, start_lem,
}

-- It counts down, gives a fragment at each count, and throws at the end.
abbrev kept : Generator ℕ → ℕ → Effects ℕ
kept g n = record { new_derived = n; new_ev_counter = g.ev_counter; new_exception = g.exception }

abbrev answer : ℕ → List ℕ → Generator ℕ → Option Bool × List ℕ × Effects ℕ
answer zero output g = (none, output, kept g 0)
answer (suc n) output g = (some true, output ++ n ∷ [], kept g n)

abbrev countdown : Virtuals ℕ ℕ
countdown = record {
  get_next_ = λ output g. answer g.derived output g;
  start = λ g. ok (kept g 5);
  stop_no_mutex = λ g. ok (kept g (g.derived));
  stop = λ g. ok (kept g 0);
  pause_no_mutex = λ g. ok (kept g (g.derived));
  pause = λ g. ok (kept g (g.derived));
  resume = λ g. ok (kept g (g.derived));
}

calls-exception_example :
    ((get_next countdown (8 ∷ []) (Generator.new 0)).0 ≡ false)
    × (calls countdown 3
          (get_next countdown (8 ∷ []) (Generator.new 0)).1
          (get_next countdown (8 ∷ []) (Generator.new 0)).2
        ≡ (
          replicate 3 false,
          (get_next countdown (8 ∷ []) (Generator.new 0)).1,
          (get_next countdown (8 ∷ []) (Generator.new 0)).2,
        ))
unfolding Generator.new
calls-exception_example = calls-exception countdown 3 (8 ∷ []) (Generator.new 0) refl

abbrev children : List (Child ℕ)
children =
    (record { active = true; generator = Generator.new 2 })
    ∷ (record { active = false; generator = Generator.new 7 })
    ∷ (record { active = true; generator = Generator.new 0 })
    ∷ []

abbrev drained : List (Child ℕ)
drained = (record { active = false; generator = Generator.new 2 }) ∷ []

get_next__lem_sample :
    AllAsked countdown children (get_next_ countdown [] children).2
    × ((get_next_ countdown [] children).0 ≡ any_active (get_next_ countdown [] children).2)
get_next__lem_sample = get_next__lem countdown [] children

get_next__drained_example : get_next_ countdown (4 ∷ []) drained ≡ (false, 4 ∷ [], drained)
get_next__drained_example = get_next__drained countdown (4 ∷ []) drained refl

start_lem_example :
    (started : List (Child ℕ)) × (start countdown (pos 9) 10 11 children ≡ ok started)
    × (length started ≡ length children)
    × All (Started countdown (pos 9) 10 11) started
start_lem_example = start_lem countdown 9 10 11 children (λ g. (kept g 5, refl))
