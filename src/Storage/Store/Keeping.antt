-- ===== src/Storage/Store/Keeping.antt =====
-- The calls that leave the rounds and the numbers of the tasks alone.
use kernel_generation_china.Prelude.{
  ℕ, ◌≡◌, refl, sym, ap, ◌∙◌, ◌⊎◌, inl, inr, Bool, true, false, Option, none, some, [], ◌∷◌, ◌++◌,
  arith, if◌then◌else◌,
}
use mathlib.Core.Option
use kernel_generation_china.Prelude.Table.{select_one, update, select_one-update, select_one-append}
use kernel_generation_china.Storage.Store.Tables.{Digest, Task, Store, is_task, get_task}
use kernel_generation_china.Storage.Store.Lifecycle.{new_task}
use kernel_generation_china.Storage.Store.Contiguity.{KeepsTasks, map-some}

module _ (s s' : Store) where
  same_lookup : s'.tasks ≡ s.tasks → (e t : ℕ) → get_task e t s' ≡ get_task e t s
  unfolding get_task
  same_lookup same e t = ap (select_one (is_task e t)) same

  pub same_tasks : s'.tasks ≡ s.tasks → KeepsTasks s s'
  same_tasks same = record {
    forth = λ e t k h. (k, same_lookup same e t ∙ h, refl);
    back = λ e t k h. inl (k, sym (same_lookup same e t) ∙ h, refl);
  }

  module _ (hit : Task → Bool) (f : Task → Task)
      (keys : (e t : ℕ) (x : Task) → is_task e t (f x) ≡ is_task e t x)
      (same : s'.tasks ≡ update hit f s.tasks) where
    pub updated_task :
        (e t : ℕ) → get_task e t s' ≡ Option.map (λ x. if hit x then f x else x) (get_task e t s)
    unfolding get_task
    updated_task e t =
        ap (select_one (is_task e t)) same
        ∙ select_one-update (is_task e t) hit f (λ x h. keys e t x) s.tasks

    module _ (rounds : (x : Task) → (f x).current_round ≡ x.current_round) where
      same_round : (b : Bool) (x : Task) → (if b then f x else x).current_round ≡ x.current_round
      same_round true x = rounds x
      same_round false x = refl

      pub updated_tasks : KeepsTasks s s'
      updated_tasks = record {
        forth = λ e t k h. (
          (if hit k then f k else k),
          updated_task e t ∙ ap (Option.map _) h,
          same_round (hit k) k,
        );
        back = λ e t k' h.
            let (k, found, is) = map-some _ _ k' (sym (updated_task e t) ∙ h) in
            inl (k, found, ap (λ (z : Task). z.current_round) is ∙ same_round (hit k) k);
      }

  module _ (e t : ℕ) where
    module _ (now version : ℕ) (digest : Option Digest) where
      pub added_task :
          s'.tasks ≡ s.tasks ++ new_task now e t version digest ∷ []
          → (e' t' : ℕ)
          → get_task e' t' s'
            ≡ Option.or_else (get_task e' t' s) (
                if is_task e' t' (new_task now e t version digest)
                then some (new_task now e t version digest)
                else none)
      unfolding get_task
      added_task same e' t' =
          ap (select_one (is_task e' t')) same
          ∙ select_one-append (is_task e' t') s.tasks (new_task now e t version digest)

      task_found :
          (o : Option Task) (b : Bool) (k : Task)
          → Option.or_else o (if b then some (new_task now e t version digest) else none) ≡ some k
          → ((x : Task) × (o ≡ some x) × (k.current_round ≡ x.current_round))
            ⊎ (k.current_round ≡ 0)
      unfolding Option.or_else new_task
      task_found none true k h = inr (ground arith)
      task_found none false k h = cc
      task_found (some x) b k h = inl (x, refl, ground arith)

      pub added_tasks : s'.tasks ≡ s.tasks ++ new_task now e t version digest ∷ [] → KeepsTasks s s'
      unfolding Option.or_else
      added_tasks same = record {
        forth = λ e' t' k h. (k, added_task same e' t' ∙ rw h refl, refl);
        back = λ e' t' k h. task_found (get_task e' t' s) _ k (sym (added_task same e' t') ∙ h);
      }
