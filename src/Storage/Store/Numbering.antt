-- ===== src/Storage/Store/Numbering.antt =====
-- Every change of the store keeps the numbering of the rounds and the order of the events.
use kernel_generation_china.Prelude.{refl, sym, subst, inl, inr}
use kernel_generation_china.Storage.Events.Appending.{LogGrows-refl}
use kernel_generation_china.Storage.Store.Tables.{Store, is_task}
use kernel_generation_china.Storage.Store.Lifecycle.{enter_task, task_at}
use kernel_generation_china.Storage.Store.Rounds.{add_round}
use kernel_generation_china.Storage.Store.Scores.{upsert_score, set_best}
use kernel_generation_china.Storage.Store.Changes.{
  Change, experiments_written, artifacts_written, task_added, task_moved, round_added, round_moved,
  candidate_added, score_written, best_written, Changed,
}
use kernel_generation_china.Storage.Store.Contiguity.{IsStore, keeps_rounds}
use kernel_generation_china.Storage.Store.Contiguity
use kernel_generation_china.Storage.Store.Opening.{opens_round}
use kernel_generation_china.Storage.Store.Keeping.{same_tasks, updated_tasks, added_tasks}

module _ (s : Store) where
  Change-IsStore : (s' : Store) → Change s s' → IsStore s → IsStore s'
  unfolding add_round upsert_score
  Change-IsStore s' (experiments_written xs) v =
      keeps_rounds s s' refl (same_tasks s s' refl) (LogGrows-refl s.events) v
  Change-IsStore s' (artifacts_written xs) v =
      keeps_rounds s s' refl (same_tasks s s' refl) (LogGrows-refl s.events) v
  Change-IsStore s' (task_added e t now version digest) v =
      keeps_rounds s s' refl (added_tasks s s' e t now version digest refl) (LogGrows-refl s.events)
        v
  Change-IsStore s' (task_moved e t w now target) v =
      keeps_rounds s s' refl
        (updated_tasks s s' (task_at e t w) (enter_task target now) (λ e t x. refl) refl
          (λ x. refl))
        (LogGrows-refl s.events) v
  Change-IsStore s' (round_added now e t n task absent at next previous) v =
      opens_round s s' e t n now task v absent at next previous refl refl (LogGrows-refl s.events)
  Change-IsStore s' (round_moved e t n w now target row found edge) v =
      Contiguity.moves_round s s' e t n w now target row refl refl found edge
        (LogGrows-refl s.events) v
  Change-IsStore s' (candidate_added now n r found) v =
      keeps_rounds s s' refl (same_tasks s s' refl) (LogGrows-refl s.events) v
  Change-IsStore s' (score_written row x found same) v =
      keeps_rounds s s' refl (same_tasks s s' refl) (LogGrows-refl s.events) v
  Change-IsStore s' (best_written e t c now x r found ex tx scored) v =
      keeps_rounds s s' refl
        (updated_tasks s s' (is_task e t) (set_best c now) (λ e t x. refl) refl (λ x. refl))
        (LogGrows-refl s.events) v

  pub Changed-IsStore : (s' : Store) → Changed s s' → IsStore s → IsStore s'
  Changed-IsStore s' (inl same) v = subst IsStore (sym same) v
  Changed-IsStore s' (inr (s1, c, m, same, grows)) v =
      let next : Store = record s1 { events = m } in
      subst IsStore (sym same)
        (keeps_rounds s1 next refl (same_tasks s1 next refl) grows (Change-IsStore s1 c v))
