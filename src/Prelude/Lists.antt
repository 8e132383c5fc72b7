-- ===== src/Prelude/Lists.antt =====
-- Lists measured by native numbers, and predicates on all members.
use Prim.Native.Nat.{ℕ, suc, ◌+◌}
use mathlib.Core.Path.{◌≡◌, refl, sym, subst}
use mathlib.Core.List.{List, [], ◌∷◌, ◌++◌, map, Memᴰ}
use native.Mathlib.Omega.{arith}

module _ {ℓ} {A : Type ℓ} where
  abbrev pub length : List A → ℕ
  length [] = 0
  length (x ∷ xs) = suc (length xs)

  pub length-append : (xs ys : List A) → length (xs ++ ys) ≡ length xs + length ys
  length-append [] ys = omega arith
  length-append (x ∷ xs) ys = omega (arith, length-append xs ys)

  abbrev pub All {κ} : (A → Type κ) → List A → Type κ
  All P [] = Unit
  All P (x ∷ xs) = P x × All P xs

module _ {ℓ κ} {A : Type ℓ} (P : A → Type κ) where
  pub All-append : (xs ys : List A) → All P xs → All P ys → All P (xs ++ ys)
  All-append [] ys hx hy = hy
  All-append (x ∷ xs) ys hx hy = (hx.0, All-append xs ys hx.1 hy)

  pub All-imp {μ} : (Q : A → Type μ) → ((a : A) → P a → Q a) → (xs : List A) → All P xs → All Q xs
  All-imp Q f [] h = tt
  All-imp Q f (x ∷ xs) h = (f x h.0, All-imp Q f xs h.1)

  pub All-map :
      (f : A → A) → ((a : A) → P a → P (f a)) → (xs : List A) → All P xs → All P (map f xs)
  All-map f keep [] h = tt
  All-map f keep (x ∷ xs) h = (keep x h.0, All-map f keep xs h.1)

  pub All-Memᴰ : (a : A) (xs : List A) → Memᴰ a xs → All P xs → P a
  All-Memᴰ a [] i h = elim i [ ]
  All-Memᴰ a (x ∷ xs) (Memᴰ.head e) h = subst P (sym e) h.0
  All-Memᴰ a (x ∷ xs) (Memᴰ.tail i) h = All-Memᴰ a xs i h.1

  pub All-of_Memᴰ : (xs : List A) → ((a : A) → Memᴰ a xs → P a) → All P xs
  All-of_Memᴰ [] h = tt
  All-of_Memᴰ (x ∷ xs) h = (h x (Memᴰ.head refl), All-of_Memᴰ xs (λ a i. h a (Memᴰ.tail i)))

module _ {ℓ κ} {A : Type ℓ} (R : A → A → Type κ) where
  -- Any two members, the earlier first, are related.
  abbrev pub Pairwise : List A → Type κ
  Pairwise [] = Unit
  Pairwise (x ∷ xs) = All (R x) xs × Pairwise xs

  pub Pairwise-map :
      (f : A → A)
      → ((a b : A) → R a b → R (f a) (f b))
      → (xs : List A) → Pairwise xs
      → Pairwise (map f xs)
  Pairwise-map f keep [] h = tt
  Pairwise-map f keep (x ∷ xs) h = (All_map_to x xs h.0, Pairwise-map f keep xs h.1)
    where
      All_map_to : (x : A) (xs : List A) → All (R x) xs → All (R (f x)) (map f xs)
      All_map_to x [] g = tt
      All_map_to x (y ∷ ys) g = (keep x y g.0, All_map_to x ys g.1)

  pub Pairwise-append :
      (xs : List A) (a : A) → Pairwise xs → All (λ x. R x a) xs → Pairwise (xs ++ a ∷ [])
  Pairwise-append [] a h g = (tt, tt)
  Pairwise-append (x ∷ xs) a h g =
      (All-append (R x) xs (a ∷ []) h.0 (g.0, tt), Pairwise-append xs a h.1 g.1)
