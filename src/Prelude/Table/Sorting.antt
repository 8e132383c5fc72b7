-- ===== src/Prelude/Table/Sorting.antt =====
-- ORDER BY ... LIMIT 1 finds a least row, for an order that is total and transitive.
use mathlib.Core.Path.{◌≡◌, subst}
use mathlib.Core.Bool.{Bool, true, false}
use mathlib.Core.Logic.{inl, inr}
use mathlib.Core.Option.{none, some}
use mathlib.Core.List.{List, [], ◌∷◌, head?, Memᴰ}
use native.Mathlib.Omega.{arith}
use kernel_generation_china.Prelude.Tests.{Bool-cases}
use kernel_generation_china.Prelude.Lists.{All, All-imp, All-Memᴰ}
use kernel_generation_china.Prelude.Table.{insert_by, order_by, insert_by-All, order_by_mem}

module _ {ℓ} {A : Type ℓ} (before : A → A → Bool)
    (total : (a b : A) → before a b ≡ false → before b a ≡ true)
    (trans : (a b c : A) → before a b ≡ true → before b c ≡ true → before a c ≡ true) where
  before_self : (a : A) → before a a ≡ true
  before_self a = elim (Bool-cases (before a a)) [ inl e ↦ e | inr e ↦ total a a e ]

  -- The first row is before every row.
  abbrev IsLed : List A → Type 0
  IsLed [] = Unit
  IsLed (x ∷ xs) = All (λ y. before x y ≡ true) xs

  insert_by-All-before :
      (a r : A) (xs : List A)
      → before a r ≡ true
      → All (λ y. before a y ≡ true) xs
      → All (λ y. before a y ≡ true) (insert_by before r xs)
  insert_by-All-before a r xs h hs = insert_by-All before (λ y. before a y ≡ true) r xs h hs

  insert_by-IsLed : (r : A) (xs : List A) → IsLed xs → IsLed (insert_by before r xs)
  unfolding insert_by
  insert_by-IsLed r [] h = tt
  insert_by-IsLed r (x ∷ xs) h = elim (Bool-cases (before r x)) [
    | inl e ↦ rw e (e, All-imp _ _ (λ y. trans r x y e) xs h)
    | inr e ↦ rw e (insert_by-All-before x r xs (total r x e) h)
  ]

  order_by-IsLed : (xs : List A) → IsLed (order_by before xs)
  unfolding order_by
  order_by-IsLed [] = tt
  order_by-IsLed (x ∷ xs) = insert_by-IsLed x (order_by before xs) (order_by-IsLed xs)

  -- The first row of the sorted table is before every row of the table.
  pub head_least :
      (xs : List A) (a b : A) → head? (order_by before xs) ≡ some a → Memᴰ b xs → before a b ≡ true
  head_least xs a b h i =
      led (order_by before xs) (order_by-IsLed xs) h (order_by_mem before b xs i)
    where
      led : (ys : List A) → IsLed ys → head? ys ≡ some a → Memᴰ b ys → before a b ≡ true
      led [] l e k = elim k [ ]
      led (y ∷ ys) l e k =
          let one : y ≡ a = ground arith in
          subst (λ z. before z b ≡ true) one
            (All-Memᴰ (λ z. before y z ≡ true) b (y ∷ ys) k (before_self y, l))

  -- The sorted table is empty only if the table is.
  pub head_none : (xs : List A) (b : A) → head? (order_by before xs) ≡ none → ¬ Memᴰ b xs
  head_none xs b h i = empty (order_by before xs) h (order_by_mem before b xs i)
    where
      empty : (ys : List A) → head? ys ≡ none → ¬ Memᴰ b ys
      empty [] e k = elim k [ ]
      empty (y ∷ ys) e k = cc

pub head_mem {ℓ} : {A : Type ℓ} (xs : List A) (a : A) → head? xs ≡ some a → Memᴰ a xs
head_mem [] a h = cc
head_mem (x ∷ xs) a h = Memᴰ.head (ground arith)
