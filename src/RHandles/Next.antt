-- ===== src/RHandles/Next.antt =====
-- The round robin of the receiver: `nextSource_` finds the next source that is not done.
use fnal_artdaq.Base.{
  lt-get_elem?, subst, mod_self, mod-eq_of_lt, inl, inr, ℕ, zero, suc, ◌+◌, ◌-◌, ◌%◌, ◌<◌, ◌≡◌,
  refl, sym, ap, ◌∙◌, List, ◌&&◌, ◌||◌, leb, Bool, true, false, Option, none, some, ok, ltb, ◌==◌,
  ◌≢◌, if◌then◌else◌, arith, Bool-cases, ℕ_discrete, get_elem?, length, get_elem?-lt, mod-lt,
}
use fnal_artdaq.RHandles.{
  RHandles, Status, sending, pending, done, is_done, index_from_source, next_from, next_source,
}

-- Whether counting on from `a` modulo `n` meets `k` before `b`.
abbrev pub before : ℕ → ℕ → ℕ → ℕ → Bool
before n a b k = if leb a b then leb a k && ltb k b else (leb a k && ltb k n) || ltb k b

-- The steps from `a` to `b`.
abbrev distance : ℕ → ℕ → ℕ → ℕ
distance n a b = if leb a b then b - a else b + n - a

-- All sources from `a` on and before `b` are done.
abbrev pub AllDone : List Status → ℕ → ℕ → Type 0
AllDone l a b =
    (k : ℕ) → get_elem? l k ≡ (if before (length l) a b k then some done else get_elem? l k)

pub wrap : (n a : ℕ) → a < n → (a + 1) % n ≡ (if a + 1 == n then 0 else a + 1)
wrap n a h = elim (ℕ_discrete (a + 1) n) [
  | yes last ↦ rw last (mod_self n ∙ ground arith)
  | no more ↦ mod-eq_of_lt (omega (arith, h, more)) ∙ ground (arith, more)
]

pub is_done-eq : (st : Status) → is_done st ≡ true → st ≡ done
is_done-eq sending h = ground (arith, h)
is_done-eq pending h = ground (arith, h)
is_done-eq done h = refl

before-step :
    (n a b k : ℕ)
    → a < n
    → b < n
    → a ≢ b
    → before n a b k ≡ (k == a) || before n (if a + 1 == n then 0 else a + 1) b k
before-step n a b k low high ne = ground arith

if_same : {A : Type 0} (b : Bool) {x y : A} → y ≡ x → y ≡ (if b then x else y)
if_same true e = e
if_same false e = refl

or_true : (b : Bool) → b || true ≡ true
or_true true = refl
or_true false = refl

-- The one at `a` is done as well.
AllDone-step :
    (l : List Status) (a b : ℕ)
    → a < length l
    → b < length l
    → a ≢ b
    → get_elem? l a ≡ some done
    → AllDone l ((a + 1) % length l) b
    → AllDone l a b
AllDone-step l a b low high ne first others k =
    rw (before-step (length l) a b k low high ne) (elim (ℕ_discrete k a) [
      | yes here ↦
          if_same (k == a || before (length l) (if a + 1 == length l then 0 else a + 1) b k)
            (ap (get_elem? l) here ∙ first)
      | no there ↦
          let tested : (k == a) ≡ false = ground (arith, there) in
          rw tested (
            subst
              (λ c. get_elem? l k ≡ (if before (length l) c b k then some done else get_elem? l k))
              (wrap (length l) a low) (others k))
    ])

distance-step :
    (n a b : ℕ)
    → a < n
    → b < n
    → a ≢ b
    → distance n a b ≡ 1 + distance n (if a + 1 == n then 0 else a + 1) b
distance-step n a b low high ne = ground arith

distance-all : (n a : ℕ) → a < n → n ≡ 1 + distance n ((a + 1) % n) a
distance-all n a low = round n a low ∙ ap (λ c. 1 + distance n c a) (sym (wrap n a low))
  where
    round : (n a : ℕ) → a < n → n ≡ 1 + distance n (if a + 1 == n then 0 else a + 1) a
    round n a low = ground arith

-- What the search from `a` to `b` gives.
abbrev pub Found : List Status → ℕ → ℕ → Option ℕ → Type 0
Found l a b none = AllDone l a b
Found l a b (some j) =
    (status : Status) × (get_elem? l j ≡ some status)
    × (is_done status ≡ false)
    × (before (length l) a b j ≡ true)
    × AllDone l a j

before_self : (n a k : ℕ) → before n a a k ≡ false
before_self n a k = ground arith

AllDone-self : (l : List Status) (a : ℕ) → AllDone l a a
AllDone-self l a k = rw (before_self (length l) a k) refl

not_done :
    (l : List Status) {a j : ℕ} {status : Status}
    → get_elem? l a ≡ some done
    → get_elem? l j ≡ some status
    → is_done status ≡ false
    → a ≢ j
not_done l first e active same =
    absurd (ground (arith, sym first ∙ ap (get_elem? l) same ∙ e, active))

Found-step :
    (l : List Status) (a b : ℕ) (next : Option ℕ)
    → a < length l
    → b < length l
    → a ≢ b
    → get_elem? l a ≡ some done
    → Found l ((a + 1) % length l) b next
    → Found l a b next
Found-step l a b none low high ne first others = AllDone-step l a b low high ne first others
Found-step l a b (some j) low high ne first (status, e, active, reached, others) = (
  status,
  e,
  active,
  before-step (length l) a b j low high ne
      ∙ ap (λ x. (j == a) || x)
          (ap (λ c. before (length l) c b j) (sym (wrap (length l) a low)) ∙ reached)
      ∙ or_true (j == a),
  AllDone-step l a j low (lt-get_elem? l j e) (not_done l first e active) first others,
)

next_from_lem :
    (l : List Status) (a b rounds : ℕ)
    → a < length l
    → b < length l
    → rounds ≡ 1 + distance (length l) a b
    → (next : Option ℕ) × (next_from l (length l) b rounds a ≡ ok next) × Found l a b next
unfolding next_from
next_from_lem l a b zero low high enough = absurd (ground (arith, enough))
next_from_lem l a b (suc rounds) low high enough = elim (ℕ_discrete a b) [
  | yes here ↦ (
    none,
    let tested : (a == b) ≡ true = ground (arith, here) in rw tested refl,
    subst (AllDone l a) here (AllDone-self l a),
  )
  | no ne ↦
      let (status, e) = get_elem?-lt l a low in
      let tested : (a == b) ≡ false = ground (arith, ne) in
      elim (Bool-cases (is_done status)) [
        | inl over ↦
            let (next, run, found) =
              next_from_lem l ((a + 1) % length l) b rounds (mod-lt (a + 1) (omega (arith, low)))
                high
                (let d = distance-step (length l) a b low high ne in
                  omega (arith, enough, d)
                  ∙ ap (λ c. 1 + distance (length l) c b) (sym (wrap (length l) a low))) in
            (
              next,
              rw (tested, e, over) run,
              Found-step l a b next low high ne (e ∙ ap some (is_done-eq status over)) found,
            )
        | inr active ↦ (
          some a,
          rw (tested, e, active) refl,
          (status, e, active, ground (arith, ne, low, high), AllDone-self l a),
        )
      ]
]

-- There is a status for each source, and the source last posted is one of them, at the index `i`.
pub record LastPosted {F : Type 0} (s : RHandles F) (i : ℕ) : Type 0 where
  pub sized : length s.src_status ≡ s.src_count
  pub posted : s.last_source_posted ≡ some (i + s.src_start)
  pub inside : i < s.src_count

abbrev pub rank_of : {F : Type 0} → RHandles F → Option ℕ → Option ℕ
rank_of s none = none
rank_of s (some index) = some (index + s.src_start)

-- Given a status for each source and a last posted one among them, the search of `nextSource_`
-- ends. Counting on from the source last posted, it gives the first source that is not done, or,
-- if all sources but the one last posted are done, none: whether that one is done is not looked
-- at.
pub next_source_lem :
    {F : Type 0} (s : RHandles F) (i : ℕ)
    → LastPosted s i
    → (next : Option ℕ) × (next_source s ≡ ok (rank_of s next))
      × Found s.src_status ((i + 1) % length s.src_status) i next
unfolding next_source index_from_source
next_source_lem s i v =
    let n : ℕ = length s.src_status in
    let low : i < n = omega (arith, v.sized, v.inside) in
    let (next, run, found) =
      next_from_lem s.src_status ((i + 1) % n) i n (mod-lt (i + 1) (omega (arith, low))) low
        (distance-all n i low) in
    (
      next,
      let index : (i + s.src_start) - s.src_start ≡ i = omega arith in
          rw (v.posted, index, sym v.sized, run) refl,
      found,
    )
