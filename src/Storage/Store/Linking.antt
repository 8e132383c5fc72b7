-- ===== src/Storage/Store/Linking.antt =====
-- The references between rounds, candidates, scores and best candidates.
use kernel_generation_china.Prelude.{
  ℕ, ◌≡◌, refl, sym, ap, ◌∙◌, ◌⊎◌, inl, inr, Bool, true, false, Option, none, some, List, [], ◌∷◌,
  ◌++◌, arith, Bool-cases, if◌then◌else◌,
}
use mathlib.Core.Option
use kernel_generation_china.Prelude.Table.{
  select_one, update, select_one_test, select_one-append, select_one-update,
}
use kernel_generation_china.Storage.Store.Tables.{
  Digest, Task, Round, Candidate, ScoreRow, Store, is_task, is_score, get_task, get_round,
  get_candidate, get_score,
}
use kernel_generation_china.Storage.Store.Lifecycle.{new_task}
use kernel_generation_china.Storage.Store.Scores.{write_over, set_best}
use kernel_generation_china.Storage.Store.Contiguity.{map-some}
use kernel_generation_china.Storage.Store.Keeping.{updated_task}

pub record IsLinked (s : Store) : Type 0 where
  pub placed :
      (c : ℕ) (x : Candidate)
      → get_candidate c s ≡ some x
      → (r : Round) × (get_round x.experiment_id x.task_id x.round_number s ≡ some r)
  pub scored :
      (c : ℕ) (y : ScoreRow)
      → get_score c s ≡ some y
      → (x : Candidate) × (get_candidate c s ≡ some x) × (x.round_number ≡ y.score.round_number)
  pub best :
      (e t : ℕ) (k : Task) (c : ℕ)
      → get_task e t s ≡ some k
      → k.best_candidate_id ≡ some c
      → (x : Candidate) × (y : ScoreRow) × (get_candidate c s ≡ some x)
        × (x.experiment_id ≡ e)
        × (x.task_id ≡ t)
        × (get_score c s ≡ some y)

-- No round, candidate or score disappears, and a candidate keeps its row.
pub record Keeps (s s' : Store) : Type 0 where
  pub rounds :
      (e t n : ℕ) (r : Round)
      → get_round e t n s ≡ some r
      → (r' : Round) × (get_round e t n s' ≡ some r')
  pub candidates :
      (c : ℕ) (x : Candidate) → get_candidate c s ≡ some x → get_candidate c s' ≡ some x
  pub scores :
      (c : ℕ) (y : ScoreRow) → get_score c s ≡ some y → (y' : ScoreRow) × (get_score c s' ≡ some y')

module _ {ℓ} {A : Type ℓ} (p : A → Bool) (rs : List A) (x r : A) where
  pub append_kept : select_one p rs ≡ some r → select_one p (rs ++ x ∷ []) ≡ some r
  unfolding Option.or_else
  append_kept h = select_one-append p rs x ∙ rw h refl

  found_either :
      (o : Option A) (b : Bool)
      → Option.or_else o (if b then some x else none) ≡ some r
      → (o ≡ some r) ⊎ (r ≡ x)
  unfolding Option.or_else
  found_either none true h = inr (ground arith)
  found_either none false h = cc
  found_either (some y) b h = inl h

  pub append_found : select_one p (rs ++ x ∷ []) ≡ some r → (select_one p rs ≡ some r) ⊎ (r ≡ x)
  append_found h = found_either (select_one p rs) (p x) (sym (select_one-append p rs x) ∙ h)

-- The lookup of a score after an upsert.
module _ (row : ScoreRow) (s : Store) (c : ℕ) where
  written_over :
      (rows : List ScoreRow)
      → select_one (is_score c) (update (is_score row.score.candidate_id) (λ _. row) rows)
        ≡ Option.map
            (λ x. if is_score row.score.candidate_id x then row else x)
            (select_one (is_score c) rows)
  written_over rows =
      select_one-update (is_score c) (is_score row.score.candidate_id) (λ _. row)
        (λ x h. ground arith) rows

  pub over_kept :
      (o : Option ScoreRow) (rows : List ScoreRow) (y : ScoreRow)
      → select_one (is_score c) rows ≡ some y
      → (y' : ScoreRow) × (select_one (is_score c) (write_over row o rows) ≡ some y')
  over_kept none rows y h = (y, append_kept (is_score c) rows row y h)
  over_kept (some old) rows y h = (_, written_over rows ∙ ap (Option.map _) h)

  replaced : (b : Bool) (x y : ScoreRow) → y ≡ (if b then row else x) → (y ≡ x) ⊎ (y ≡ row)
  replaced true x y h = inr h
  replaced false x y h = inl h

  pub over_found :
      (o : Option ScoreRow) (rows : List ScoreRow) (y : ScoreRow)
      → select_one (is_score c) (write_over row o rows) ≡ some y
      → (select_one (is_score c) rows ≡ some y) ⊎ (y ≡ row)
  over_found none rows y h = append_found (is_score c) rows row y h
  over_found (some old) rows y h =
      let (x, found, is) = map-some _ _ y (sym (written_over rows) ∙ h) in
      elim (replaced (is_score row.score.candidate_id x) x y is) [
        | inl same ↦ inl (found ∙ ap some (sym same))
        | inr new ↦ inr new
      ]

  pub score_key : (y : ScoreRow) → get_score c s ≡ some y → y.score.candidate_id ≡ c
  unfolding get_score
  score_key y h =
      let test : is_score c y ≡ true = select_one_test (is_score c) s.scores y h in ground arith

-- The round of a new candidate, the candidate of a new score, and a best candidate, with its score.
abbrev pub Placed : Store → Candidate → Type 0
Placed s x = (r : Round) × (get_round x.experiment_id x.task_id x.round_number s ≡ some r)

abbrev pub Scored : Store → ℕ → ScoreRow → Type 0
Scored s c y =
    (x : Candidate) × (get_candidate c s ≡ some x) × (x.round_number ≡ y.score.round_number)

abbrev pub Known : Store → ℕ → ℕ → ℕ → Type 0
Known s e t c =
    (x : Candidate) × (y : ScoreRow) × (get_candidate c s ≡ some x)
    × (x.experiment_id ≡ e)
    × (x.task_id ≡ t)
    × (get_score c s ≡ some y)

module _ (s s' : Store) where
  -- A best candidate was the best one, or is known.
  abbrev pub Bests : Type 0
  Bests =
      (e t : ℕ) (k' : Task) (c : ℕ)
      → get_task e t s' ≡ some k'
      → k'.best_candidate_id ≡ some c
      → ((k : Task) × (get_task e t s ≡ some k) × (k.best_candidate_id ≡ some c)) ⊎ Known s' e t c

  module _ (keeps : Keeps s s') where
    transferred : (e t c : ℕ) → Known s e t c → Known s' e t c
    transferred e t c (x, y, found, ex, tx, at) =
        let (y', at') = keeps.scores c y at in (x, y', keeps.candidates c x found, ex, tx, at')

    pub links :
        ((c : ℕ) (x : Candidate)
          → get_candidate c s' ≡ some x
          → (get_candidate c s ≡ some x) ⊎ Placed s' x)
        → ((c : ℕ) (y : ScoreRow)
            → get_score c s' ≡ some y
            → (get_score c s ≡ some y) ⊎ Scored s' c y)
        → Bests
        → IsLinked s
        → IsLinked s'
    links candidates scores bests v = record {
      placed = λ c x h. elim (candidates c x h) [
        | inl old ↦ let (r, at) = v.placed c x old in keeps.rounds _ _ _ r at
        | inr new ↦ new
      ];
      scored = λ c y h. elim (scores c y h) [
        | inl old ↦ let (x, at, same) = v.scored c y old in (x, keeps.candidates c x at, same)
        | inr new ↦ new
      ];
      best = λ e t k' c h is. elim (bests e t k' c h is) [
        | inl (k, at, was) ↦ transferred e t c (v.best e t k c at was)
        | inr new ↦ new
      ];
    }

  pub same_bests : s'.tasks ≡ s.tasks → Bests
  unfolding get_task
  same_bests same e t k c h is = inl (k, rw same at h, is)

  -- An update of tasks that leaves the best candidate alone.
  module _ (hit : Task → Bool) (f : Task → Task)
      (keys : (e t : ℕ) (x : Task) → is_task e t (f x) ≡ is_task e t x)
      (leaves : (x : Task) → (f x).best_candidate_id ≡ x.best_candidate_id)
      (same : s'.tasks ≡ update hit f s.tasks) where
    same_best :
        (b : Bool) (x : Task) → (if b then f x else x).best_candidate_id ≡ x.best_candidate_id
    same_best true x = leaves x
    same_best false x = refl

    pub updated_bests : Bests
    updated_bests e t k' c h is =
        let (k, found, made) = map-some _ _ k' (sym (updated_task s s' hit f keys same e t) ∙ h) in
        inl (k, found, sym (ap (λ (z : Task). z.best_candidate_id) made ∙ same_best (hit k) k) ∙ is)

  -- The choice of a best candidate of one task.
  module _ (e t c now : ℕ) (known : Known s' e t c)
      (same : s'.tasks ≡ update (is_task e t) (set_best c now) s.tasks) where
    task_key :
        (e' t' : ℕ) (x : Task)
        → get_task e' t' s ≡ some x
        → is_task e t x ≡ true
        → (e ≡ e') × (t ≡ t')
    unfolding get_task
    task_key e' t' x h hit =
        let test : is_task e' t' x ≡ true = select_one_test (is_task e' t') s.tasks x h in
        ground arith

    pub set_bests : Bests
    set_bests e' t' k' c' h is =
        let (k, found, made) =
          map-some _ _ k' (
            sym (updated_task s s' (is_task e t) (set_best c now) (λ e t x. refl) same e' t')
            ∙ h) in
        elim (Bool-cases (is_task e t k)) [
          | inr miss ↦
              let kept : k' ≡ k = rw miss at made in
              inl (k, found, sym (ap (λ (z : Task). z.best_candidate_id) kept) ∙ is)
          | inl hit ↦
              let (es, ts) = task_key e' t' k found hit in
              let set : k' ≡ set_best c now k = rw hit at made in
              let one : some c ≡ some c' = sym (ap (λ (z : Task). z.best_candidate_id) set) ∙ is in
              let cs : c ≡ c' = ground arith in inr (rw (sym es, sym ts, sym cs) known)
        ]

  pub added_bests :
      (e t now version : ℕ) (digest : Option Digest)
      → s'.tasks ≡ s.tasks ++ new_task now e t version digest ∷ []
      → Bests
  unfolding get_task new_task
  added_bests e t now version digest same e' t' k' c h is =
      elim (append_found (is_task e' t') s.tasks (new_task now e t version digest) k'
        (ap (select_one (is_task e' t')) (sym same) ∙ h)) [
          | inl old ↦ inl (k', old, is)
          | inr new ↦
              let none_best : k'.best_candidate_id ≡ none =
                ap (λ (z : Task). z.best_candidate_id) new in
              absurd (cc)
        ]
