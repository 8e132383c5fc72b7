-- ===== src/Domain/StateMachine/Path.antt =====
-- What `transition` and `validate_path` accept, for any machine.
use mathlib.Core.List.{Memᴰ, append_assoc}
use kernel_generation_china.Prelude.{
  ◌≡◌, refl, sym, ap, ◌∙◌, subst, ◌≢◌, ◌↔◌, ◌⊎◌, inl, inr, true, List, [], ◌∷◌, ◌++◌, arith,
  Bool-cases,
}
use kernel_generation_china.Prelude.Result.{ok}
use kernel_generation_china.Domain.StateMachine.{
  StrictStateMachine, can_transition, transition, validate_from, validate_path,
}

-- A history whose neighbours are all joined by an edge of the machine.
pub data IsHistory {S : Type 0} (m : StrictStateMachine S) : List S → Type 0 where
  empty : IsHistory m []
  start : (s : S) → IsHistory m (s ∷ [])
  step :
      (s t : S) (rest : List S)
      → can_transition m s t ≡ true
      → IsHistory m (t ∷ rest)
      → IsHistory m (s ∷ t ∷ rest)

module _ {S : Type 0} (m : StrictStateMachine S) where
  pub transition-eq-ok :
      (s t u : S) → transition m s t ≡ ok u → (can_transition m s t ≡ true) × (u ≡ t)
  unfolding transition
  transition-eq-ok s t u h = ground arith

  validate_from-IsHistory :
      (s : S) (rest : List S) → validate_from m s rest ≡ ok tt → IsHistory m (s ∷ rest)
  unfolding validate_from transition
  validate_from-IsHistory s [] h = start s
  validate_from-IsHistory s (t ∷ rest) h = elim (Bool-cases (can_transition m s t)) [
    | inl e ↦ step s t rest e (validate_from-IsHistory t rest (ground arith))
    | inr e ↦ absurd (ground arith)
  ]

  IsHistory-validate_from :
      (s : S) (rest : List S) → IsHistory m (s ∷ rest) → validate_from m s rest ≡ ok tt
  unfolding validate_from transition
  IsHistory-validate_from s [] h = refl
  IsHistory-validate_from s (t ∷ rest) (step _ _ _ e h) =
      ground (arith, IsHistory-validate_from t rest h)

  -- `validate_path` accepts exactly the histories whose neighbours are joined by an edge.
  pub validate_path_iff : (states : List S) → (validate_path m states ≡ ok tt) ↔ IsHistory m states
  unfolding validate_path
  validate_path_iff [] = (λ _. empty, λ _. refl)
  validate_path_iff (s ∷ rest) = (validate_from-IsHistory s rest, IsHistory-validate_from s rest)

module _ {S : Type 0} (m : StrictStateMachine S) where
  -- A history that enters `t` has passed a state with an edge into `t`.
  pub history_enters :
      (t s : S) (rest : List S)
      → IsHistory m (s ∷ rest)
      → Memᴰ t rest
      → (g : S) × (can_transition m g t ≡ true) × Memᴰ g (s ∷ rest)
  history_enters t s rest (start _) i = elim i [ ]
  history_enters t s rest (step _ u rest' e h) (Memᴰ.head p) =
      (s, subst (λ x. can_transition m s x ≡ true) (sym p) e, Memᴰ.head refl)
  history_enters t s rest (step _ u rest' e h) (Memᴰ.tail i) =
      let (g, edge, at) = history_enters t u rest' h i in (g, edge, Memᴰ.tail at)

  -- Where every edge into `t` starts at `g`, a history that enters `t` has passed `g`.
  pub history_passes :
      (g t : S)
      → ((s : S) → can_transition m s t ≡ true → s ≡ g)
      → (s : S) (rest : List S) → IsHistory m (s ∷ rest)
      → Memᴰ t rest
      → Memᴰ g (s ∷ rest)
  history_passes g t only s rest h i =
      let (x, edge, at) = history_enters t s rest h i in
      subst (λ y. Memᴰ y (s ∷ rest)) (only x edge) at

  -- Where every edge into `t` starts at `g`, just before `t` a history is at `g`.
  history_before :
      (g t : S)
      → ((s : S) → can_transition m s t ≡ true → s ≡ g)
      → (s : S) (before after : List S) → IsHistory m (s ∷ before ++ t ∷ after)
      → ((s ≡ g) × (before ≡ [])) ⊎ ((b : List S) × (before ≡ b ++ g ∷ []))
  history_before g t only s [] after (step _ _ _ e h) = inl (only s e, refl)
  history_before g t only s (u ∷ us) after (step _ _ _ e h) =
      elim (history_before g t only u us after h) [
        | inl (is, end) ↦ inr ([], ap (λ x. x ∷ us) is ∙ ap (λ z. g ∷ z) end)
        | inr (b, is) ↦ inr (u ∷ b, ap (λ z. u ∷ z) is)
      ]

  -- The same after a start at another state, with the history split before `g`.
  pub entered_from :
      (g t : S)
      → ((s : S) → can_transition m s t ≡ true → s ≡ g)
      → (s : S) (before after : List S) → g ≢ s
      → IsHistory m (s ∷ before ++ t ∷ after)
      → (b : List S) × (before ≡ b ++ g ∷ []) × IsHistory m (s ∷ b ++ g ∷ t ∷ after)
  entered_from g t only s before after other h = elim (history_before g t only s before after h) [
    | inl (is, _) ↦ absurd (other (sym is))
    | inr (b, is) ↦ (
      b,
      is,
      subst (λ z. IsHistory m (s ∷ z))
          (ap (λ z. z ++ t ∷ after) is ∙ append_assoc b (g ∷ []) (t ∷ after)) h,
    )
  ]

  -- What a history has passed after a start at another state.
  pub after_start : {s t : S} {rest : List S} → s ≢ t → Memᴰ s (t ∷ rest) → Memᴰ s rest
  after_start ne (Memᴰ.head e) = absurd (ne e)
  after_start ne (Memᴰ.tail i) = i
