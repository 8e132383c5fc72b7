-- ===== src/Storage/Store/Replays.antt =====
-- `register_candidate` under retries.
use kernel_generation_china.Prelude.{
  ℕ, ◌≡◌, ◌≢◌, inl, inr, Bool-cases, refl, sym, ap, ◌∙◌, true, Option, none, some, List, [], ◌∷◌,
  ◌++◌, arith, ==_self, is_same_self,
}
use mathlib.Core.Option
use kernel_generation_china.Prelude.Table.{select_one, select_one-append}
use kernel_generation_china.Prelude.Result.{
  ok, err, concurrent_update, integrity_error, require, >>=-eq-ok,
}
use kernel_generation_china.Storage.Events.{Draw}
use kernel_generation_china.Storage.Store.Tables.{
  Candidate, Store, is_candidate, get_candidate, get_round,
}
use kernel_generation_china.Storage.Store.Lifecycle.{validate_sha256}
use kernel_generation_china.Storage.Store.Evidence.{
  NewCandidate, same_candidate, candidate_row, exists, replay_or_register, register_candidate,
}
use kernel_generation_china.Storage.Store.Swaps.{logged_lem}

same-candidate_row : (now : ℕ) (n : NewCandidate) → same_candidate (candidate_row now n) n ≡ true
unfolding same_candidate candidate_row
same-candidate_row now n = simp (is_same_self, ==_self)

-- Two requests under one id that the same row answers are one.
same_request :
    (x : Candidate) (n other : NewCandidate)
    → same_candidate x n ≡ true
    → same_candidate x other ≡ true
    → other.candidate_id ≡ n.candidate_id
    → other ≡ n
unfolding same_candidate
same_request x n other h k id = ground arith

module _ (d : Draw) (now : ℕ) (n : NewCandidate) (s : Store) (x : Candidate) (s' : Store) where
  new_row :
      get_candidate n.candidate_id s ≡ none
      → (m : List Candidate) → m ≡ s.candidates ++ candidate_row now n ∷ []
      → select_one (is_candidate n.candidate_id) m ≡ some x
      → x ≡ candidate_row now n
  unfolding get_candidate candidate_row Option.or_else
  new_row absent m same read =
      let found : some x ≡ some (candidate_row now n) =
        sym read
        ∙ ap (select_one (is_candidate n.candidate_id)) same
        ∙ select_one-append (is_candidate n.candidate_id) s.candidates (candidate_row now n)
        ∙ rw (absent, ==_self n.candidate_id) refl in
      ground arith

  read_table :
      get_candidate n.candidate_id s' ≡ some x
      → select_one (is_candidate n.candidate_id) s'.candidates ≡ some x
  unfolding get_candidate
  read_table h = h

  registered :
      (o : Option Candidate)
      → get_candidate n.candidate_id s ≡ o
      → replay_or_register d now n s o ≡ ok (x, s')
      → (get_candidate n.candidate_id s' ≡ some x) × (same_candidate x n ≡ true)
  unfolding replay_or_register
  registered (some y) found h =
      let one : y ≡ x = ground arith in
      let kept : s' ≡ s = ground arith in (rw kept (found ∙ ap some one), ground arith)
  registered none found h =
      let (_, known, h1) =
        >>=-eq-ok
          (require (exists (get_round n.experiment_id n.task_id n.round_number s)) integrity_error)
          _ h in
      let (m, same, read, grows) = logged_lem d _ (get_candidate n.candidate_id) _ x s' h1 in
      let is : x ≡ candidate_row now n =
        new_row found s'.candidates (ap (λ (z : Store). z.candidates) same) (read_table read) in
      (read, ap (λ (z : Candidate). same_candidate z n) is ∙ same-candidate_row now n)

-- A `register_candidate` that commits can be replayed, at any later time on the store that it left:
-- it returns the same row and changes nothing.
pub register_replay :
    (d d' : Draw) (now now' : ℕ) (n : NewCandidate) (s : Store) (x : Candidate) (s' : Store)
    → register_candidate d now n s ≡ ok (x, s')
    → register_candidate d' now' n s' ≡ ok (x, s')
unfolding register_candidate replay_or_register
register_replay d d' now now' n s x s' h =
    let (_, source, h1) = >>=-eq-ok (validate_sha256 (some n.source_sha256)) _ h in
    let (_, response, h2) = >>=-eq-ok (validate_sha256 n.response_sha256) _ h1 in
    let (read, same) = registered d now n s x s' (get_candidate n.candidate_id s) refl h2 in
    rw (source, response, read, replay_or_register, same) refl

-- After a `register_candidate` that commits, a request under the same candidate id that differs from
-- it in any argument is refused, if its digests are well formed.
pub register_conflict :
    (d d' : Draw) (now now' : ℕ) (n other : NewCandidate) (s : Store) (x : Candidate) (s' : Store)
    → register_candidate d now n s ≡ ok (x, s')
    → other.candidate_id ≡ n.candidate_id
    → other ≢ n
    → validate_sha256 (some other.source_sha256) ≡ ok tt
    → validate_sha256 other.response_sha256 ≡ ok tt
    → register_candidate d' now' other s' ≡ err concurrent_update
unfolding register_candidate replay_or_register
register_conflict d d' now now' n other s x s' h id differs valid valid' =
    let (_, source, h1) = >>=-eq-ok (validate_sha256 (some n.source_sha256)) _ h in
    let (_, response, h2) = >>=-eq-ok (validate_sha256 n.response_sha256) _ h1 in
    let (read, same) = registered d now n s x s' (get_candidate n.candidate_id s) refl h2 in
    elim (Bool-cases (same_candidate x other)) [
      | inl again ↦ absurd (differs (same_request x n other same again id))
      | inr changed ↦ rw (valid, valid', id, read, replay_or_register, changed) refl
    ]
