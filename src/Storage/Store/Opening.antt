-- ===== src/Storage/Store/Opening.antt =====
-- A round that `create_round` adds is the next one, after rounds that have finished.
use kernel_generation_china.Prelude.{
  ℕ, ◌+◌, ◌-◌, ◌≤◌, ◌<◌, ◌≡◌, refl, sym, ap, ◌∙◌, ◌⊎◌, inl, inr, Bool, true, false, Option, none,
  some, [], ◌∷◌, ◌++◌, arith, ltb, leb, ==_self, Bool-cases, if◌then◌else◌,
}
use mathlib.Core.Option
use kernel_generation_china.Prelude.Table.{
  select_one, update, select_one_test, select_one-update, select_one-append,
}
use kernel_generation_china.Domain.Enums.{round_finished}
use kernel_generation_china.Storage.Events.Appending.{LogGrows}
use kernel_generation_china.Storage.Store.Tables.{
  Task, Round, Store, is_task, is_round, get_task, get_round,
}
use kernel_generation_china.Storage.Store.Rounds.{new_round, set_round}
use kernel_generation_china.Storage.Store.Contiguity.{IsStore, map-some}

module _ (s s' : Store) (e t n now : ℕ) (task : Task) where
  added_lookup :
      s'.rounds ≡ s.rounds ++ new_round now e t n ∷ []
      → (e' t' n' : ℕ)
      → get_round e' t' n' s'
        ≡ Option.or_else
            (get_round e' t' n' s)
            (if is_round e' t' n' (new_round now e t n) then some (new_round now e t n) else none)
  unfolding get_round
  added_lookup same e' t' n' =
      ap (select_one (is_round e' t' n')) same
      ∙ select_one-append (is_round e' t' n') s.rounds (new_round now e t n)

  set_lookup :
      s'.tasks ≡ update (is_task e t) (set_round n now) s.tasks
      → (e' t' : ℕ)
      → get_task e' t' s'
        ≡ Option.map (λ x. if is_task e t x then set_round n now x else x) (get_task e' t' s)
  unfolding get_task
  set_lookup same e' t' =
      ap (select_one (is_task e' t')) same
      ∙ select_one-update (is_task e' t') (is_task e t) (set_round n now) (λ x h. refl) s.tasks

  -- A row that is found under a key has that key.
  task_key :
      (e' t' : ℕ) (x : Task) → get_task e' t' s ≡ some x → (x.experiment_id ≡ e') × (x.task_id ≡ t')
  unfolding get_task
  task_key e' t' x h =
      let test : is_task e' t' x ≡ true = select_one_test (is_task e' t') s.tasks x h in
      ground arith

  -- The task of the new round, found under any key.
  own_task :
      (e' t' : ℕ) (x : Task)
      → get_task e t s ≡ some task
      → get_task e' t' s ≡ some x
      → is_task e t x ≡ true
      → (e' ≡ e) × (t' ≡ t) × (x ≡ task)
  own_task e' t' x at h hit =
      let (ke, kt) = task_key e' t' x h in
      let es : e' ≡ e = ground arith in
      let ts : t' ≡ t = ground arith in
      let there : get_task e t s ≡ some x = rw (es, ts) at h in (es, ts, ground arith)

  round_found :
      (o : Option Round) (b : Bool) (r x : Round)
      → Option.or_else o (if b then some x else none) ≡ some r
      → (o ≡ some r) ⊎ ((o ≡ none) × (b ≡ true) × (r ≡ x))
  unfolding Option.or_else
  round_found none true r x h = inr (refl, refl, ground arith)
  round_found none false r x h = cc
  round_found (some y) b r x h = inl h

  -- The rounds below the new one have finished.
  earlier :
      (r : Round) (n' : ℕ)
      → IsStore s
      → get_task e t s ≡ some task
      → n ≡ task.current_round + 1
      → ((1 < n) → (p : Round) × (get_round e t (n - 1) s ≡ some p) × (p.state ≡ round_finished))
      → get_round e t n' s ≡ some r
      → 1 ≤ n'
      → n' < n
      → r.state ≡ round_finished
  earlier r n' inv at next previous found low lt =
      let (k, task', _, high, done) = inv.rounds e t n' r found in
      let same : some k ≡ some task = sym task' ∙ at in
      let current : k.current_round ≡ task.current_round = ground arith in
      let (p, before, finished) = previous (omega arith) in
      elim (Bool-cases (ltb n' k.current_round)) [
        | inl below ↦ done (ground arith)
        | inr last ↦
            let number : n' ≡ n - 1 = ground arith in
            let one : some r ≡ some p = sym found ∙ rw number before in
            let is : r ≡ p = ground arith in ap (λ (z : Round). z.state) is ∙ finished
      ]

  current_after :
      (k : Task) (k' : Task)
      → k' ≡ (if is_task e t k then set_round n now k else k)
      → ((is_task e t k ≡ true) × (k'.current_round ≡ n))
        ⊎ ((is_task e t k ≡ false) × (k'.current_round ≡ k.current_round))
  current_after k k' h = elim (Bool-cases (is_task e t k)) [
    | inl hit ↦
        let is : k' ≡ set_round n now k = rw hit at h in
        inl (hit, ap (λ (z : Task). z.current_round) is)
    | inr miss ↦ let is : k' ≡ k = rw miss at h in inr (miss, ap (λ (z : Task). z.current_round) is)
  ]

  module _ (inv : IsStore s) (at : get_task e t s ≡ some task) (next : n ≡ task.current_round + 1)
      (absent : get_round e t n s ≡ none)
      (rounds : s'.rounds ≡ s.rounds ++ new_round now e t n ∷ [])
      (tasks : s'.tasks ≡ update (is_task e t) (set_round n now) s.tasks) where
    task_after :
        (e' t' : ℕ) (k : Task)
        → get_task e' t' s ≡ some k
        → (k' : Task) × (get_task e' t' s' ≡ some k')
          × (((e' ≡ e) × (t' ≡ t) × (k ≡ task) × (k'.current_round ≡ n))
              ⊎ ((is_task e t k ≡ false) × (k'.current_round ≡ k.current_round)))
    task_after e' t' k h =
        let k' : Task = if is_task e t k then set_round n now k else k in
        let found : get_task e' t' s' ≡ some k' = set_lookup tasks e' t' ∙ ap (Option.map _) h in
        elim (current_after k k' refl) [
          | inl (hit, current) ↦
              let (es, ts, is) = own_task e' t' k at h hit in (k', found, inl (es, ts, is, current))
          | inr other ↦ (k', found, inr other)
        ]

    old_round :
        ((1 < n) → (p : Round) × (get_round e t (n - 1) s ≡ some p) × (p.state ≡ round_finished))
        → (e' t' n' : ℕ) (r : Round) → get_round e' t' n' s ≡ some r
        → (k : Task) × (get_task e' t' s' ≡ some k)
          × (1 ≤ n')
          × (n' ≤ k.current_round)
          × (n' < k.current_round → r.state ≡ round_finished)
    old_round previous e' t' n' r h =
        let (k, found, low, high, done) = inv.rounds e' t' n' r h in
        let (k', found', how) = task_after e' t' k found in
        elim how [
          | inl (es, ts, is, current) ↦
              let there : get_round e t n' s ≡ some r = rw (es, ts) at h in
              let same : k.current_round ≡ task.current_round =
                ap (λ (z : Task). z.current_round) is in
              (
                k',
                found',
                low,
                omega (arith, current, next, same),
                λ lt. earlier r n' inv at next previous there low (omega (arith, current)),
              )
          | inr (other, current) ↦
              (k', found', low, omega (arith, current), λ lt. done (omega (arith, current)))
        ]

    new_key :
        (e' t' n' : ℕ)
        → is_round e' t' n' (new_round now e t n) ≡ true
        → (e ≡ e') × (t ≡ t') × (n ≡ n')
    unfolding new_round
    new_key e' t' n' h = ground arith

    own_row :
        (e' t' n' : ℕ) (r : Round)
        → is_round e' t' n' (new_round now e t n) ≡ true
        → (k : Task) × (get_task e' t' s' ≡ some k)
          × (1 ≤ n')
          × (n' ≤ k.current_round)
          × (n' < k.current_round → r.state ≡ round_finished)
    own_row e' t' n' r hit =
        let (es, ts, ns) = new_key e' t' n' hit in
        let there : get_task e' t' s ≡ some task = rw (es, ts) at at in
        let (k', found, how) = task_after e' t' task there in
        elim how [
          | inl (_, _, _, current) ↦ (
            k',
            found,
            omega (arith, next, ns),
            omega (arith, ns, current),
            λ lt. absurd (omega (arith, ns, current)),
          )
          | inr (other, current) ↦ absurd (not_other other)
        ]
      where
        not_other : ¬ (is_task e t task ≡ false)
        not_other h = let (ke, kt) = task_key e t task at in ground arith

    new_hit : is_round e t n (new_round now e t n) ≡ true
    unfolding new_round
    new_hit = ground (arith, ==_self e, ==_self t, ==_self n)

    the_new : (r : Round) × (get_round e t n s' ≡ some r)
    unfolding Option.or_else
    the_new = (new_round now e t n, added_lookup rounds e t n ∙ rw (absent, new_hit) refl)

    own_filled : (n' : ℕ) → 1 ≤ n' → n' ≤ n → (r : Round) × (get_round e t n' s' ≡ some r)
    unfolding Option.or_else
    own_filled n' low high = elim (Bool-cases (leb n' task.current_round)) [
      | inl below ↦
          let (r, there) = inv.filled e t n' task at low (ground arith) in
          (r, added_lookup rounds e t n' ∙ rw there refl)
      | inr last ↦ let same : n' ≡ n = ground arith in rw same the_new
    ]

    filled_after :
        (e' t' n' : ℕ) (k' : Task)
        → get_task e' t' s' ≡ some k'
        → 1 ≤ n'
        → n' ≤ k'.current_round
        → (r : Round) × (get_round e' t' n' s' ≡ some r)
    unfolding Option.or_else
    filled_after e' t' n' k' h low high =
        let (k, found, is) = map-some _ _ k' (sym (set_lookup tasks e' t') ∙ h) in
        elim (current_after k k' is) [
          | inr (other, current) ↦
              let (r, there) = inv.filled e' t' n' k found low (omega (arith, current)) in
              (r, added_lookup rounds e' t' n' ∙ rw there refl)
          | inl (hit, current) ↦
              let (es, ts, one) = own_task e' t' k at found hit in
              rw (es, ts) (own_filled n' low (omega (arith, current)))
        ]

  -- The opening of a round keeps the numbering.
  pub opens_round :
      IsStore s
      → get_round e t n s ≡ none
      → get_task e t s ≡ some task
      → n ≡ task.current_round + 1
      → ((1 < n) → (p : Round) × (get_round e t (n - 1) s ≡ some p) × (p.state ≡ round_finished))
      → s'.rounds ≡ s.rounds ++ new_round now e t n ∷ []
      → s'.tasks ≡ update (is_task e t) (set_round n now) s.tasks
      → LogGrows s.events s'.events
      → IsStore s'
  opens_round inv absent at next previous rounds tasks grows = record {
    rounds = λ e' t' n' r h.
        elim (round_found (get_round e' t' n' s) _ r _ (sym (added_lookup rounds e' t' n') ∙ h)) [
          | inl old ↦ old_round inv at next absent rounds tasks previous e' t' n' r old
          | inr (_, hit, is) ↦ own_row inv at next absent rounds tasks e' t' n' r hit
        ];
    filled = filled_after inv at next absent rounds tasks;
    log = (grows inv.log).0;
  }
