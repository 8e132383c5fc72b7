-- ===== src/Prelude/Tests.antt =====
-- Boolean tests on native numbers, on optional columns and on a chain of conditions.
use Prim.Native.Nat.{ℕ, compare, Ordering}
use mathlib.Core.Path.{◌≡◌, refl}
use mathlib.Core.Logic.{◌⊎◌, inl, inr, ite}
use mathlib.Core.Bool.{Bool, true, false}
use mathlib.Core.Option.{Option, none, some}
use native.Mathlib.Omega.{arith}

abbrev pub ltb : ℕ → ℕ → Bool
ltb a b = elim (compare a b) [ Ordering.lt ↦ true | _ ↦ false ]

abbrev pub leb : ℕ → ℕ → Bool
leb a b = elim (compare a b) [ Ordering.gt ↦ false | _ ↦ true ]

infix 50 ◌==◌
abbrev pub ◌==◌ : ℕ → ℕ → Bool
a == b = elim (compare a b) [ Ordering.eq ↦ true | _ ↦ false ]

infix 1 if◌then◌else◌
abbrev pub if◌then◌else◌ {ℓ} : {A : Type ℓ} → Bool → A → A → A
if true then x else y = x
if false then x else y = y

pub ==→eq : (a b : ℕ) → (a == b) ≡ true → a ≡ b
==→eq a b h = ground arith

pub ==_self : (a : ℕ) → (a == a) ≡ true
==_self a = ground arith

pub ne→==_false : (a b : ℕ) → ¬ (a ≡ b) → (a == b) ≡ false
ne→==_false a b h = ground arith

-- To split on a computed value and keep the equation.
pub Bool-cases : (b : Bool) → (b ≡ true) ⊎ (b ≡ false)
Bool-cases true = inl refl
Bool-cases false = inr refl

pub Option-cases {ℓ} : {A : Type ℓ} (o : Option A) → (o ≡ none) ⊎ ((a : A) × (o ≡ some a))
Option-cases none = inl refl
Option-cases (some a) = inr (a, refl)

-- SQL's `column = ?`, `column <= ?` and `column > ?` on a column that may be NULL, as the WHERE
-- clause reads them: NULL selects nothing.
abbrev pub null_eq : Option ℕ → ℕ → Bool
null_eq none b = false
null_eq (some a) b = a == b

abbrev pub null_le : Option ℕ → ℕ → Bool
null_le none b = false
null_le (some a) b = leb a b

abbrev pub null_gt : Option ℕ → ℕ → Bool
null_gt none b = false
null_gt (some a) b = ltb b a

-- Python's `==` on values that may be None.
abbrev pub option_eq : Option ℕ → Option ℕ → Bool
option_eq none none = true
option_eq none (some b) = false
option_eq (some a) none = false
option_eq (some a) (some b) = a == b

-- The test `a == b` by a decision.
abbrev pub is_same {ℓ} : {A : Type ℓ} → Discrete A → A → A → Bool
is_same d a b = ite (d a b) true false

-- One column of an ORDER BY clause: the next column decides where this one is equal.
abbrev pub then_by : Ordering → Bool → Bool
then_by Ordering.lt rest = true
then_by Ordering.gt rest = false
then_by Ordering.eq rest = rest

pub is_same_self {ℓ} : {A : Type ℓ} (d : Discrete A) (a : A) → is_same d a a ≡ true
is_same_self d a = ground arith

pub option_eq_self : (o : Option ℕ) → option_eq o o ≡ true
option_eq_self none = refl
option_eq_self (some a) = ==_self a

pub option_eq→eq : (o p : Option ℕ) → option_eq o p ≡ true → o ≡ p
option_eq→eq none none h = refl
option_eq→eq none (some b) h = cc
option_eq→eq (some a) none h = cc
option_eq→eq (some a) (some b) h = ground arith
