-- ===== src/Prelude/Table.antt =====
-- The SQL statements of storage/*.py over a table as the list of its rows in insertion order:
-- SELECT with fetchone and fetchall, UPDATE with its row count, ORDER BY.
pub mod Sorting
use kernel_generation_china.Prelude.Tests.{Bool-cases, if◌then◌else◌}
use kernel_generation_china.Prelude.Lists.{All}
use Prim.Native.Nat.{ℕ, ◌+◌}
use mathlib.Core.Path.{◌≡◌, refl, sym, ap, ◌∙◌, subst}
use mathlib.Core.Bool.{Bool, true, false}
use mathlib.Core.Logic.{inl, inr}
use mathlib.Core.Option
use mathlib.Core.Option.{Option, none, some}
use mathlib.Core.List.{List, [], ◌∷◌, ◌++◌, map, Memᴰ}
use native.Mathlib.Omega.{arith}

module _ {ℓ} {A : Type ℓ} where
  -- SELECT ... WHERE p, fetchone
  unfoldable pub select_one : (A → Bool) → List A → Option A
  select_one p [] = none
  select_one p (r ∷ rs) = if p r then some r else select_one p rs

  -- SELECT ... WHERE p, fetchall
  unfoldable pub select_all : (A → Bool) → List A → List A
  select_all p [] = []
  select_all p (r ∷ rs) = if p r then r ∷ select_all p rs else select_all p rs

  -- UPDATE ... SET f WHERE p
  unfoldable pub update : (A → Bool) → (A → A) → List A → List A
  update p f [] = []
  update p f (r ∷ rs) = (if p r then f r else r) ∷ update p f rs

  -- The row count of that UPDATE.
  unfoldable pub row_count : (A → Bool) → List A → ℕ
  row_count p [] = 0
  row_count p (r ∷ rs) = (if p r then 1 else 0) + row_count p rs

  unfoldable pub insert_by : (A → A → Bool) → A → List A → List A
  insert_by before r [] = r ∷ []
  insert_by before r (x ∷ xs) = if before r x then r ∷ x ∷ xs else x ∷ insert_by before r xs

  -- ORDER BY; `before r x` is the order of the sort key, and rows with equal keys keep theirs.
  unfoldable pub order_by : (A → A → Bool) → List A → List A
  order_by before [] = []
  order_by before (r ∷ rs) = insert_by before r (order_by before rs)

module _ {ℓ} {A : Type ℓ} (p : A → Bool) where
  pub All-update {κ} :
      (f : A → A) (P : A → Type κ)
      → ((r : A) → p r ≡ true → P r → P (f r))
      → (rs : List A) → All P rs
      → All P (update p f rs)
  unfolding update
  All-update f P keep [] h = tt
  All-update f P keep (r ∷ rs) h = elim (Bool-cases (p r)) [
    | inl e ↦ rw e (keep r e h.0, All-update f P keep rs h.1)
    | inr e ↦ rw e (h.0, All-update f P keep rs h.1)
  ]

  pub All-select_all {κ} : (P : A → Type κ) (rs : List A) → All P rs → All P (select_all p rs)
  unfolding select_all
  All-select_all P [] h = tt
  All-select_all P (r ∷ rs) h = elim (Bool-cases (p r)) [
    | inl e ↦ rw e (h.0, All-select_all P rs h.1)
    | inr e ↦ rw e (All-select_all P rs h.1)
  ]

  pub select_all_test : (rs : List A) → All (λ r. p r ≡ true) (select_all p rs)
  unfolding select_all
  select_all_test [] = tt
  select_all_test (r ∷ rs) = elim (Bool-cases (p r)) [
    | inl e ↦ rw e (e, select_all_test rs)
    | inr e ↦ rw e (select_all_test rs)
  ]

  pub select_one_test : (rs : List A) (r : A) → select_one p rs ≡ some r → p r ≡ true
  unfolding select_one
  select_one_test [] r h = cc
  select_one_test (x ∷ rs) r h = ground (arith, select_one_test rs r)

  pub select_one-All {κ} :
      (P : A → Type κ) (rs : List A) (r : A) → All P rs → select_one p rs ≡ some r → P r
  unfolding select_one
  select_one-All P [] r all h = cc
  select_one-All P (x ∷ rs) r all h = elim (Bool-cases (p x)) [
    | inl e ↦ (let same : x ≡ r = ground arith in subst P same all.0)
    | inr e ↦ select_one-All P rs r all.1 (rw e at h)
  ]

  -- A row that is not found by `p` before an insertion at the end is the inserted one or none.
  pub select_one-append :
      (rs : List A) (r : A)
      → select_one p (rs ++ r ∷ [])
        ≡ Option.or_else (select_one p rs) (if p r then some r else none)
  unfolding select_one Option.or_else
  select_one-append [] r = refl
  select_one-append (x ∷ rs) r = ground (arith, select_one-append rs r)

  -- An update that does not change what `p` looks at acts on the row that `p` finds.
  pub select_one-update :
      (q : A → Bool) (f : A → A)
      → ((r : A) → q r ≡ true → p (f r) ≡ p r)
      → (rs : List A)
      → select_one p (update q f rs) ≡ Option.map (λ r. if q r then f r else r) (select_one p rs)
  unfolding select_one update
  select_one-update q f keep [] = refl
  select_one-update q f keep (r ∷ rs) = ground (arith, keep r, select_one-update q f keep rs)

  -- An update reports no row exactly when no row passes its test.
  pub row_count_zero : (rs : List A) → row_count p rs ≡ 0 → All (λ r. p r ≡ false) rs
  unfolding row_count
  row_count_zero [] h = tt
  row_count_zero (r ∷ rs) h = (ground arith, row_count_zero rs (omega arith))

  pub update_none : (f : A → A) (rs : List A) → All (λ r. p r ≡ false) rs → update p f rs ≡ rs
  unfolding update
  update_none f [] h = refl
  update_none f (r ∷ rs) h = rw (h.0, update_none f rs h.1)

  pub select_one_absent : (rs : List A) → All (λ r. p r ≡ false) rs → select_one p rs ≡ none
  unfolding select_one
  select_one_absent [] h = refl
  select_one_absent (r ∷ rs) h = rw h.0 (select_one_absent rs h.1)

  pub select_one-none : (rs : List A) → select_one p rs ≡ none → All (λ r. p r ≡ false) rs
  unfolding select_one
  select_one-none [] h = tt
  select_one-none (r ∷ rs) h = (ground arith, select_one-none rs (ground arith))

  -- An update is a map over the rows.
  pub update-map : (f : A → A) (rs : List A) → update p f rs ≡ map (λ r. if p r then f r else r) rs
  unfolding update
  update-map f [] = refl
  update-map f (r ∷ rs) = rw (update-map f rs)

  pub select_one-map :
      (f : A → A)
      → ((r : A) → p (f r) ≡ p r)
      → (rs : List A) → select_one p (map f rs) ≡ Option.map f (select_one p rs)
  unfolding select_one
  select_one-map f keep [] = refl
  select_one-map f keep (r ∷ rs) = ground (arith, keep r, select_one-map f keep rs)

  pub select_one_mem : (rs : List A) (r : A) → select_one p rs ≡ some r → Memᴰ r rs
  unfolding select_one
  select_one_mem [] r h = cc
  select_one_mem (x ∷ rs) r h = elim (Bool-cases (p x)) [
    | inl e ↦ Memᴰ.head (ground arith)
    | inr e ↦ Memᴰ.tail (select_one_mem rs r (ground arith))
  ]

  pub select_all_mem : (rs : List A) (r : A) → Memᴰ r rs → p r ≡ true → Memᴰ r (select_all p rs)
  unfolding select_all
  select_all_mem [] r i h = elim i [ ]
  select_all_mem (x ∷ rs) r (Memᴰ.head e) h = rw (ap p (sym e) ∙ h) (Memᴰ.head e)
  select_all_mem (x ∷ rs) r (Memᴰ.tail i) h = elim (Bool-cases (p x)) [
    | inl e ↦ rw e (Memᴰ.tail (select_all_mem rs r i h))
    | inr e ↦ rw e (select_all_mem rs r i h)
  ]

module _ {ℓ} {A : Type ℓ} (before : A → A → Bool) where
  past :
      {a x : A} (y : A) (ys : List A)
      → Memᴰ a (x ∷ y ∷ ys)
      → (Memᴰ a (x ∷ ys) → Memᴰ a (insert_by before x ys))
      → Memᴰ a (y ∷ insert_by before x ys)
  past y ys (Memᴰ.head p) rest = Memᴰ.tail (rest (Memᴰ.head p))
  past y ys (Memᴰ.tail (Memᴰ.head p)) rest = Memᴰ.head p
  past y ys (Memᴰ.tail (Memᴰ.tail p)) rest = Memᴰ.tail (rest (Memᴰ.tail p))

  insert_by_mem : (a x : A) (xs : List A) → Memᴰ a (x ∷ xs) → Memᴰ a (insert_by before x xs)
  unfolding insert_by
  insert_by_mem a x [] i = i
  insert_by_mem a x (y ∷ ys) i = elim (Bool-cases (before x y)) [
    | inl e ↦ rw e i
    | inr e ↦ rw e (past y ys i (insert_by_mem a x ys))
  ]

  -- ORDER BY neither loses a row nor makes one up.
  pub order_by_mem : (a : A) (xs : List A) → Memᴰ a xs → Memᴰ a (order_by before xs)
  unfolding order_by
  order_by_mem a [] i = elim i [ ]
  order_by_mem a (x ∷ xs) (Memᴰ.head e) = insert_by_mem a x (order_by before xs) (Memᴰ.head e)
  order_by_mem a (x ∷ xs) (Memᴰ.tail i) =
      insert_by_mem a x (order_by before xs) (Memᴰ.tail (order_by_mem a xs i))

  pub insert_by-All {κ} :
      (P : A → Type κ) (x : A) (xs : List A) → P x → All P xs → All P (insert_by before x xs)
  unfolding insert_by
  insert_by-All P x [] h hs = (h, tt)
  insert_by-All P x (y ∷ ys) h hs = elim (Bool-cases (before x y)) [
    | inl e ↦ rw e (h, hs)
    | inr e ↦ rw e (hs.0, insert_by-All P x ys h hs.1)
  ]

  pub order_by-All {κ} : (P : A → Type κ) (xs : List A) → All P xs → All P (order_by before xs)
  unfolding order_by
  order_by-All P [] h = tt
  order_by-All P (x ∷ xs) h = insert_by-All P x (order_by before xs) h.0 (order_by-All P xs h.1)
