-- ===== src/Storage/Store/References.antt =====
-- Every change of the store keeps the references in it.
use kernel_generation_china.Prelude.{ℕ, ◌≡◌, refl, sym, ap, ◌∙◌, subst, inl, inr, some, List}
use mathlib.Core.Option
use kernel_generation_china.Prelude.Table.{select_one, select_one-update}
use kernel_generation_china.Domain.Float.{Libm}
use kernel_generation_china.Storage.Store.Tables.{
  Candidate, ScoreRow, Store, is_task, is_round, is_candidate, is_score, get_task, get_round,
  get_candidate, get_score,
}
use kernel_generation_china.Storage.Store.Lifecycle.{enter_task, task_at}
use kernel_generation_china.Storage.Store.Rounds.{
  new_round, set_round, add_round, enter_round, round_at,
}
use kernel_generation_china.Storage.Store.Evidence.{candidate_row}
use kernel_generation_china.Storage.Store.Scores.{upsert_score}
use kernel_generation_china.Storage.Store.Calls.{StoreInput, serve_store}
use kernel_generation_china.Storage.Store.Changes.{
  Change, experiments_written, artifacts_written, task_added, task_moved, round_added, round_moved,
  candidate_added, score_written, best_written, Changed,
}
use kernel_generation_china.Storage.Store.Linking.{
  IsLinked, Keeps, append_kept, append_found, over_kept, over_found, score_key, Placed, Scored,
  Bests, links, same_bests, updated_bests, set_bests, added_bests,
}
use kernel_generation_china.Storage.Store.Serving.{serve_store_invariant}
use kernel_generation_china.Storage.Store.Safety.{empty_store}

module _ (s : Store) where
  unchanged :
      (s' : Store)
      → s'.rounds ≡ s.rounds
      → s'.candidates ≡ s.candidates
      → s'.scores ≡ s.scores
      → Keeps s s'
  unfolding get_round get_candidate get_score
  unchanged s' rounds candidates scores = record {
    rounds = λ e t n r h. (r, ap (select_one (is_round e t n)) rounds ∙ h);
    candidates = λ c x h. ap (select_one (is_candidate c)) candidates ∙ h;
    scores = λ c y h. (y, ap (select_one (is_score c)) scores ∙ h);
  }

  pub Change-Keeps : (s' : Store) → Change s s' → Keeps s s'
  unfolding get_round get_candidate get_score add_round upsert_score
  Change-Keeps s' (experiments_written xs) = unchanged s' refl refl refl
  Change-Keeps s' (artifacts_written xs) = unchanged s' refl refl refl
  Change-Keeps s' (task_added e t now version digest) = unchanged s' refl refl refl
  Change-Keeps s' (task_moved e t w now target) = unchanged s' refl refl refl
  Change-Keeps s' (best_written e t c now x r found ex tx scored) = unchanged s' refl refl refl
  Change-Keeps s' (round_added now e t n task absent at next previous) = record {
    rounds =
        λ e' t' n' r h. (r, append_kept (is_round e' t' n') s.rounds (new_round now e t n) r h);
    candidates = λ c x h. h;
    scores = λ c y h. (y, h);
  }
  Change-Keeps s' (round_moved e t n w now target row found edge) = record {
    rounds = λ e' t' n' r h. (
      _,
      select_one-update (is_round e' t' n') (round_at e t n w) (enter_round target now)
            (λ x h. refl) s.rounds
          ∙ ap (Option.map _) h,
    );
    candidates = λ c x h. h;
    scores = λ c y h. (y, h);
  }
  Change-Keeps s' (candidate_added now n r found) = record {
    rounds = λ e t n r h. (r, h);
    candidates = λ c x h. append_kept (is_candidate c) s.candidates (candidate_row now n) x h;
    scores = λ c y h. (y, h);
  }
  Change-Keeps s' (score_written row x found same) = record {
    rounds = λ e t n r h. (r, h);
    candidates = λ c x h. h;
    scores = λ c y h. over_kept row s c (get_score row.score.candidate_id s) s.scores y h;
  }

  relinked :
      (s' : Store)
      → Change s s'
      → s'.candidates ≡ s.candidates
      → s'.scores ≡ s.scores
      → Bests s s'
      → IsLinked s
      → IsLinked s'
  unfolding get_candidate get_score
  relinked s' c candidates scores bests v =
      links s s' (Change-Keeps s' c)
        (λ i x h. inl (ap (select_one (is_candidate i)) (sym candidates) ∙ h))
        (λ i y h. inl (ap (select_one (is_score i)) (sym scores) ∙ h)) bests v

  -- The row that `write_over` wrote, under its key.
  upserted :
      (row y : ScoreRow) (x : Candidate) (c : ℕ)
      → get_candidate row.score.candidate_id s ≡ some x
      → x.round_number ≡ row.score.round_number
      → y ≡ row
      → y.score.candidate_id ≡ c
      → Scored s c y
  upserted row y x c found same is key =
      let at : row.score.candidate_id ≡ c =
        ap (λ (z : ScoreRow). z.score.candidate_id) (sym is) ∙ key in
      (
        x,
        ap (λ z. get_candidate z s) (sym at) ∙ found,
        same ∙ ap (λ (z : ScoreRow). z.score.round_number) (sym is),
      )

  Change-IsLinked : (s' : Store) → Change s s' → IsLinked s → IsLinked s'
  unfolding get_round get_candidate get_score add_round upsert_score candidate_row
  Change-IsLinked s' (experiments_written xs) =
      relinked s' (experiments_written xs) refl refl (same_bests s s' refl)
  Change-IsLinked s' (artifacts_written xs) =
      relinked s' (artifacts_written xs) refl refl (same_bests s s' refl)
  Change-IsLinked s' (task_added e t now version digest) =
      relinked s' (task_added e t now version digest) refl refl
        (added_bests s s' e t now version digest refl)
  Change-IsLinked s' (task_moved e t w now target) =
      relinked s' (task_moved e t w now target) refl refl (
        updated_bests s s' (task_at e t w) (enter_task target now) (λ e t x. refl) (λ x. refl) refl)
  Change-IsLinked s' (round_added now e t n task absent at next previous) =
      relinked s' (round_added now e t n task absent at next previous) refl refl
        (updated_bests s s' (is_task e t) (set_round n now) (λ e t x. refl) (λ x. refl) refl)
  Change-IsLinked s' (round_moved e t n w now target row found edge) =
      relinked s' (round_moved e t n w now target row found edge) refl refl (same_bests s s' refl)
  Change-IsLinked s' (best_written e t c now x y found ex tx at) =
      relinked s' (best_written e t c now x y found ex tx at) refl refl
        (set_bests s s' e t c now (x, y, found, ex, tx, at) refl)
  Change-IsLinked s' (candidate_added now n r found) =
      links s s' (Change-Keeps s' (candidate_added now n r found))
        (λ c x h. elim (append_found (is_candidate c) s.candidates (candidate_row now n) x h) [
          | inl old ↦ inl old
          | inr new ↦ inr (subst (λ (z : Candidate). Placed s' z) (sym new) (r, found))
        ])
        (λ c y h. inl h) (same_bests s s' refl)
  Change-IsLinked s' (score_written row x found same) =
      links s s' (Change-Keeps s' (score_written row x found same)) (λ c x h. inl h)
        (λ c y h. elim (over_found row s c (get_score row.score.candidate_id s) s.scores y h) [
          | inl old ↦ inl old
          | inr new ↦ inr (upserted row y x c found same new (score_key row s' c y h))
        ])
        (same_bests s s' refl)

  Changed-IsLinked : (s' : Store) → Changed s s' → IsLinked s → IsLinked s'
  unfolding get_round get_candidate get_score get_task
  Changed-IsLinked s' (inl same) v = subst IsLinked (sym same) v
  Changed-IsLinked s' (inr (s1, c, m, same, grows)) v =
      let v1 = Change-IsLinked s1 c v in
      subst IsLinked (sym same) (record { placed = v1.placed; scored = v1.scored; best = v1.best })

empty-IsLinked : IsLinked empty_store
unfolding get_candidate get_score get_task select_one
empty-IsLinked = record { placed = λ c x h. cc; scored = λ c y h. cc; best = λ e t k c h is. cc }

-- After any sequence of calls on an empty store, whether they succeed or raise: every candidate
-- belongs to a round that exists; every score is that of a registered candidate, with the round
-- number of its row; and a best candidate of a task is registered for that task and has a score.
pub serve_store-IsLinked :
    (m : Libm) (inputs : List StoreInput) → IsLinked (serve_store m empty_store inputs)
serve_store-IsLinked m inputs =
    serve_store_invariant m IsLinked (λ s s' c. Changed-IsLinked s s' c) empty_store inputs
      empty-IsLinked
