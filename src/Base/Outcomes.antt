-- ===== src/Base/Outcomes.antt =====
-- The outcome of a call that may end in an exception or in undefined behaviour.
use mathlib.Core.Bool.{Bool, true, false}
use mathlib.Core.Option.{Option, none, some}
use fnal_artdaq.Base.Tests.{if◌then◌else◌}
use mathlib.Core.Path.{◌≡◌, subst, refl}

-- `logic_error`, `configuration`, `unimplemented`, `data_corruption` are exceptions that the code throws; the others
-- are an index past the end of a vector, `% 0`, a failing `assert`, a null pointer, a loop that still
-- waits when the rounds that it is given are used up, the `lock` of a mutex that nothing unlocks any
-- more, and the `unlock` of one that is not locked.
pub data Fault : Type 0 where
  logic_error configuration unimplemented out_of_bounds division_by_zero assertion null_pointer
        out_of_fuel deadlock not_locked data_corruption :
      Fault

pub data Outcome {ℓ} (A : Type ℓ) : Type ℓ where
  fault : Fault → Outcome A
  ok : A → Outcome A

module _ {ℓ κ} {A : Type ℓ} {B : Type κ} where
  infixl 5 ◌>>=◌
  -- A fault ends what follows it.
  abbrev pub ◌>>=◌ : Outcome A → (A → Outcome B) → Outcome B
  fault why >>= rest = fault why
  ok a >>= rest = rest a

infixl 5 ◌>>◌
abbrev pub ◌>>◌ {κ} : {B : Type κ} → Outcome (Unit {0}) → Outcome B → Outcome B
first >> second = first >>= λ _. second

abbrev pub or_fault {ℓ} : {A : Type ℓ} → Option A → Fault → Outcome A
or_fault (some a) why = ok a
or_fault none why = fault why

-- `if (bad) throw why;` is `require (not bad) why`.
abbrev pub require : Bool → Fault → Outcome (Unit {0})
require fine why = elim fine [ true ↦ ok tt | false ↦ fault why ]

-- The call ends in a fault, or with a value that satisfies `P`.
pub data Ends {ℓ κ} {A : Type ℓ} (P : A → Type κ) : Outcome A → Type (ℓ ⊔ κ) where
  faulted : {why : Fault} → Ends P (fault why)
  ended : {a : A} → P a → Ends P (ok a)

module _ {ℓ κ ℓ' κ'} {A : Type ℓ} {B : Type ℓ'} {P : A → Type κ} {Q : B → Type κ'} where
  pub Ends-bind :
      {m : Outcome A} {k : A → Outcome B}
      → Ends P m
      → ((a : A) → P a → Ends Q (k a))
      → Ends Q (m >>= k)
  Ends-bind faulted rest = faulted
  Ends-bind (ended p) rest = rest _ p

-- The same for a call of which nothing is known.
pub Ends-any {ℓ κ ℓ'} :
    {A : Type ℓ} {B : Type ℓ'} {Q : B → Type κ} (m : Outcome A) {k : A → Outcome B}
    → ((a : A) → Ends Q (k a))
    → Ends Q (m >>= k)
Ends-any (fault why) rest = faulted
Ends-any (ok a) rest = rest a

pub Ends-map {ℓ κ κ'} :
    {A : Type ℓ} {P : A → Type κ} {Q : A → Type κ'} {m : Outcome A}
    → ((a : A) → P a → Q a)
    → Ends P m
    → Ends Q m
Ends-map f faulted = faulted
Ends-map f (ended p) = ended (f _ p)

module _ {ℓ κ} {A : Type ℓ} {P : A → Type κ} where
  pub Ends-if : (b : Bool) {x y : Outcome A} → Ends P x → Ends P y → Ends P (if b then x else y)
  Ends-if true p q = p
  Ends-if false p q = q

  pub Ends-if_eq :
      (b : Bool) {x y : Outcome A}
      → (b ≡ true → Ends P x)
      → (b ≡ false → Ends P y)
      → Ends P (if b then x else y)
  Ends-if_eq true p q = p refl
  Ends-if_eq false p q = q refl

  -- The same for a branch on a Boolean by cases.
  pub Ends-bool :
      (b : Bool) {x y : Outcome A} → Ends P x → Ends P y → Ends P (elim b [ true ↦ x | false ↦ y ])
  Ends-bool true p q = p
  Ends-bool false p q = q

  -- The same where what the test says is needed.
  pub Ends-bool_eq :
      (a b : Bool) {x y : Outcome A}
      → a ≡ b
      → (a ≡ true → Ends P x)
      → (a ≡ false → Ends P y)
      → Ends P (elim b [ true ↦ x | false ↦ y ])
  Ends-bool_eq a true e p q = p e
  Ends-bool_eq a false e p q = q e

  pub Ends-option {ℓ'} :
      {B : Type ℓ'} (o : Option B) {x : Outcome A} {k : B → Outcome A}
      → Ends P x
      → ((b : B) → Ends P (k b))
      → Ends P (elim o [ none ↦ x | some b ↦ k b ])
  Ends-option none p q = p
  Ends-option (some b) p q = q b

pub Ends-or_fault {ℓ κ ℓ'} :
    {A : Type ℓ} {B : Type ℓ'} {Q : B → Type κ} (o : Option A) (why : Fault) {k : A → Outcome B}
    → ((a : A) → o ≡ some a → Ends Q (k a))
    → Ends Q (or_fault o why >>= k)
Ends-or_fault none why rest = faulted
Ends-or_fault (some a) why rest = rest a refl

fault-ne-ok {ℓ} : {A : Type ℓ} {why : Fault} {a : A} → ¬ (fault why ≡ ok a)
fault-ne-ok e = cc

pub ok-bind {ℓ ℓ'} :
    {A : Type ℓ} {B : Type ℓ'} (m : Outcome A) (k : A → Outcome B) {b : B}
    → (m >>= k) ≡ ok b
    → (a : A) × (m ≡ ok a) × (k a ≡ ok b)
ok-bind (fault why) k e = absurd (fault-ne-ok e)
ok-bind (ok a) k e = (a, refl, e)

pub ok-injective {ℓ} : {A : Type ℓ} (x y : A) → ok x ≡ ok y → x ≡ y
ok-injective x y e = cc

pub Ends-of {ℓ κ} :
    {A : Type ℓ} {P : A → Type κ} {r : Outcome A} {a : A} → Ends P r → r ≡ ok a → P a
Ends-of faulted e = cc
Ends-of {P = P} (ended p) e = subst P (ok-injective _ _ e) p

pub Ends-both {ℓ κ κ'} :
    {A : Type ℓ} {P : A → Type κ} {Q : A → Type κ'} {x : Outcome A}
    → Ends P x
    → Ends Q x
    → Ends (λ a. P a × Q a) x
Ends-both faulted q = faulted
Ends-both (ended p) (ended q) = ended (p, q)
