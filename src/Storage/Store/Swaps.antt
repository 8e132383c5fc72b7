-- ===== src/Storage/Store/Swaps.antt =====
-- `transition_round` as a compare-and-swap.
use kernel_generation_china.Prelude.{
  ℕ, ◌+◌, ◌≡◌, refl, sym, ap, ◌∙◌, Bool, true, false, Option, some, arith, ◌==◌, ==_self,
  if◌then◌else◌,
}
use mathlib.Core.Option
use kernel_generation_china.Prelude.Table.{
  select_one, update, row_count, select_one_test, select_one-update,
}
use kernel_generation_china.Prelude.Result.{
  ok, err, Error, key_error, assertion_error, invalid_transition, concurrent_update, require,
  or_raise, ◌>>◌, >>=-eq-ok,
}
use kernel_generation_china.Domain.Enums.{RoundState}
use kernel_generation_china.Domain.StateMachine.{transition, can_transition, round_state_machine}
use kernel_generation_china.Storage.Events.{Identifier, Json, Draw, NewEvent, EventLog, append}
use kernel_generation_china.Storage.Events.Appending.{LogGrows, append-IsLog}
use kernel_generation_china.Storage.Store.Tables.{
  Round, Store, is_round, get_round, log, logged, version_matches,
}
use kernel_generation_china.Storage.Store.Rounds.{
  enter_round, round_at, swap_round, check_round, transition_round,
}

-- The store that differs in its events alone.
pub log_lem :
    (d : Draw) (n : NewEvent) (s s' : Store)
    → log d n s ≡ ok s'
    → (m : EventLog) × (s' ≡ record s { events = m }) × LogGrows s.events m
unfolding log
log_lem d n s s' h =
    let ((e, m), added, same) = >>=-eq-ok (append d n s.events) _ h in
    (m, ground arith, λ v. append-IsLog d n s.events e m v added)

pub logged_lem {ℓ} :
    {A : Type ℓ} (d : Draw) (n : NewEvent) (get : Store → Option A) (s : Store) (x : A) (s' : Store)
    → logged d n get s ≡ ok (x, s')
    → (m : EventLog) × (s' ≡ record s { events = m }) × (get s' ≡ some x) × LogGrows s.events m
unfolding logged
logged_lem d n get s x s' h =
    let (s1, written, h1) = >>=-eq-ok (log d n s) _ h in
    let (y, read, h2) = >>=-eq-ok (or_raise (get s1) assertion_error) _ h1 in
    let (m, same, grows) = log_lem d n s s1 written in
    let end : s1 ≡ s' = ground arith in
    let one : y ≡ x = ground arith in
    let found : get s1 ≡ some y = ground arith in
    (m, sym end ∙ same, ap get (sym end) ∙ found ∙ ap some one, grows)

module _ (d : Draw) (now : ℕ) (e t : Identifier) (n : ℕ) (target : RoundState) (expected : Option ℕ)
    (extra : Option Json) (s : Store) (r : Round) (s' : Store) where
  -- What the UPDATE of a transition has done.
  abbrev pub Written : Round → Type 0
  Written row =
      (s'.rounds ≡ update (round_at e t n row.version) (enter_round target now) s.rounds)
      × (get_round e t n s' ≡ some r)
      × ((m : EventLog) × (s' ≡ record s {
        rounds = update (round_at e t n row.version) (enter_round target now) s.rounds;
        events = m;
      })
          × LogGrows s.events m)

  swap-Written :
      (row : Round) → swap_round d now e t n target extra s row ≡ ok (r, s') → Written row
  unfolding swap_round
  swap-Written row h =
      let (_, one, h1) =
        >>=-eq-ok (require (row_count (round_at e t n row.version) s.rounds == 1) concurrent_update)
          _ h in
      let (m, same, found, grows) = logged_lem d _ (get_round e t n) _ r s' h1 in
      (ap (λ (z : Store). z.rounds) same, found, (m, same, grows))

  checked :
      (row : Round)
      → check_round target expected row ≡ ok tt
      → (transition round_state_machine row.state target ≡ ok target)
        × (version_matches expected row.version ≡ true)
  unfolding check_round transition
  checked row h = ground arith

  pub transition_round-Written :
      transition_round d now e t n target expected extra s ≡ ok (r, s')
      → (row : Round) × (get_round e t n s ≡ some row)
        × (transition round_state_machine row.state target ≡ ok target)
        × (version_matches expected row.version ≡ true)
        × Written row
  unfolding transition_round
  transition_round-Written h =
      let (row, found, h1) = >>=-eq-ok (or_raise (get_round e t n s) key_error) _ h in
      let (_, valid, h2) = >>=-eq-ok (check_round target expected row) _ h1 in
      let at : get_round e t n s ≡ some row = ground arith in
      (row, at, (checked row valid).0, (checked row valid).1, swap-Written row h2)

  -- The row that the transition returns.
  entered :
      (row : Round) → get_round e t n s ≡ some row → Written row → r ≡ enter_round target now row
  unfolding get_round
  entered row g w =
      let hit : is_round e t n row ≡ true = select_one_test (is_round e t n) s.rounds row g in
      let found : some r ≡ some (enter_round target now row) =
        sym w.1
        ∙ ap (select_one (is_round e t n)) w.0
        ∙ select_one-update (is_round e t n) (round_at e t n row.version) (enter_round target now)
            (λ x h. refl) s.rounds
        ∙ ap
            (Option.map (λ x. if round_at e t n row.version x then enter_round target now x else x))
            g
        ∙ rw (hit, ==_self row.version) in
      ground arith

stale :
    (v : ℕ) (target : RoundState) (row : Round)
    → (row.version == v) ≡ false
    → (x : Error) × (check_round target (some v) row ≡ err x)
unfolding check_round transition
stale v target row h = stale_at (can_transition round_state_machine row.state target)
  where
    stale_at :
        (b : Bool)
        → (x : Error) × (((if b then ok target else err invalid_transition)
              >> require (row.version == v) concurrent_update)
            ≡ err x)
    stale_at true = (concurrent_update, rw h)
    stale_at false = (invalid_transition, refl)

next_version :
    (v : ℕ) (old new : Round) (target : RoundState) (now : ℕ)
    → version_matches (some v) old.version ≡ true
    → new ≡ enter_round target now old
    → (new.version == v) ≡ false
next_version v old new target now h e = ground arith

refused :
    (d : Draw) (now : ℕ) (e t : Identifier) (n v : ℕ) (target : RoundState) (extra : Option Json)
    (s : Store) (r : Round) (x : Error)
    → get_round e t n s ≡ some r
    → check_round target (some v) r ≡ err x
    → transition_round d now e t n target (some v) extra s ≡ err x
unfolding transition_round
refused d now e t n v target extra s r x found raised = rw (found, or_raise) (rw raised)

edge_can :
    (a b : RoundState)
    → transition round_state_machine a b ≡ ok b
    → can_transition round_state_machine a b ≡ true
unfolding transition
edge_can a b h = ground arith

at_version :
    (v : ℕ) (row : Round) (target : RoundState) (now : ℕ)
    → version_matches (some v) row.version ≡ true
    → enter_round target now row ≡ record row { state = target; updated_at = now; version = v + 1 }
at_version v row target now h = ground arith

-- A transition of a round that commits under an expected version has moved the round along an edge
-- of the state machine, and has left a row with that state and the next version. After it no second
-- one with the same expected version commits: whatever its target, it raises.
pub compare_and_swap :
    (d d' : Draw) (now now' : ℕ) (e t : Identifier) (n v : ℕ) (target target' : RoundState)
    (extra extra' : Option Json) (s : Store) (r : Round) (s' : Store)
    → transition_round d now e t n target (some v) extra s ≡ ok (r, s')
    → ((x : Error) × (transition_round d' now' e t n target' (some v) extra' s' ≡ err x))
      × ((row : Round) × (get_round e t n s ≡ some row)
          × (can_transition round_state_machine row.state target ≡ true)
          × (r ≡ record row { state = target; updated_at = now; version = v + 1 })
          × (get_round e t n s' ≡ some r))
compare_and_swap d d' now now' e t n v target target' extra extra' s r s' h =
    let (row, found, edge, version, w) =
      transition_round-Written d now e t n target (some v) extra s r s' h in
    let is : r ≡ enter_round target now row =
      entered d now e t n target (some v) extra s r s' row found w in
    let (x, raised) = stale v target' r (next_version v row r target now version is) in
    (
      (x, refused d' now' e t n v target' extra' s' r x w.1 raised),
      (row, found, edge_can row.state target edge, is ∙ at_version v row target now version, w.1),
    )
