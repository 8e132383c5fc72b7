-- ===== src/Domain/Float.antt =====
-- Python's float, for the values that pass `math.isfinite` and the two infinities. Such a value is
-- the integer whose sign and absolute value are its sign and the bit pattern of its magnitude, as
-- in IEEE 754: the order of floats is the order of these integers, and both zeros are 0. NaN has
-- no such integer; the constructors of domain/models.py refuse it. Comparisons are computed, and
-- rounded arithmetic is a parameter, `Libm`.
use kernel_generation_china.Prelude.{ℕ, suc, Bool, true, false, ltb, Ordering, List}
use kernel_generation_china.Prelude.Int.{ℤ, pos, negsuc, compare_ℤ}

abbrev pub Float : Type 0
Float = ℤ

abbrev pub zero_float : Float
zero_float = pos 0

-- 1.0, 2.0 and math.inf
abbrev pub one : Float
one = pos 0x3FF0000000000000

abbrev pub two : Float
two = pos 0x4000000000000000

abbrev pub infinity : ℕ
infinity = 0x7FF0000000000000

abbrev pub neg : Float → Float
neg (pos ℕ.zero) = pos 0
neg (pos (suc n)) = negsuc n
neg (negsuc n) = pos (suc n)

abbrev pub magnitude : Float → ℕ
magnitude (pos n) = n
magnitude (negsuc n) = suc n

-- `a < b` and `a <= b`
abbrev pub flt : Float → Float → Bool
flt a b = elim (compare_ℤ a b) [ Ordering.lt ↦ true | _ ↦ false ]

abbrev pub fle : Float → Float → Bool
fle a b = elim (compare_ℤ a b) [ Ordering.gt ↦ false | _ ↦ true ]

-- `math.isfinite`
abbrev pub is_finite : Float → Bool
is_finite a = ltb (magnitude a) infinity

-- `max(a, b)` and `min(a, b)`, which return the first of two equal values.
abbrev pub fmax : Float → Float → Float
fmax a b = elim (flt a b) [ true ↦ b | false ↦ a ]

abbrev pub fmin : Float → Float → Float
fmin a b = elim (flt b a) [ true ↦ b | false ↦ a ]

-- The rounded operations of the interpreter and of the module math.
pub record Libm : Type 0 where
  pub add : Float → Float → Float
  pub sub : Float → Float → Float
  pub mul : Float → Float → Float
  pub div : Float → Float → Float
  pub log : Float → Float
  pub log2 : Float → Float
  pub exp : Float → Float
  pub fsum : List Float → Float
