-- ===== src/Storage/Events/Appending.antt =====
-- What `append` of storage/event_log.py does to the log: immutable rows, rising sequence numbers,
-- unique event ids, and the replay of an explicit id.
use mathlib.Core.List.{append-nil, append_assoc}
use mathlib.Core.Option
use kernel_generation_china.Prelude.{
  ℕ, suc, ◌≤◌, ◌<◌, ◌≡◌, ◌≢◌, refl, sym, ap, ◌∙◌, subst, ◌⊎◌, inl, inr, true, false, Option, none,
  some, List, [], ◌∷◌, ◌++◌, arith, All, All-append, option_eq_self, is_same_self, ==_self,
}
use kernel_generation_china.Prelude.Table.{select_one, select_one-none, select_one-append}
use kernel_generation_china.Prelude.Result.{ok}
use kernel_generation_china.Storage.Events.{
  Event, NewEvent, EventLog, Draw, chosen_id, chosen_time, with_id, same_time, round_check,
  same_event, new_event, insert_event, reuse_or_insert, append, empty_log,
}

-- The sequence numbers rise from `low` along the rows, up to `last`.
abbrev pub Ascends : ℕ → List Event → ℕ → Type 0
Ascends low [] last = low ≤ last
Ascends low (e ∷ es) last = (low < e.sequence) × Ascends e.sequence es last

-- No two rows have one event id.
abbrev pub HasDistinctIds : List Event → Type 0
HasDistinctIds [] = Unit
HasDistinctIds (e ∷ es) = All (λ x. x.event_id ≢ e.event_id) es × HasDistinctIds es

pub record IsLog (l : EventLog) : Type 0 where
  pub ascending : Ascends 0 l.rows l.last
  pub distinct : HasDistinctIds l.rows

-- The rows of the first log stand unchanged at the head of the second.
pub record Extends (l m : EventLog) : Type 0 where
  pub added : List Event
  pub kept : m.rows ≡ l.rows ++ added

pub empty-IsLog : IsLog empty_log
empty-IsLog = omega arith

Ascends-append :
    (low last : ℕ) (es : List Event) (e : Event)
    → Ascends low es last
    → e.sequence ≡ suc last
    → Ascends low (es ++ e ∷ []) (suc last)
Ascends-append low last [] e h eq = omega arith
Ascends-append low last (x ∷ es) e h eq = (h.0, Ascends-append x.sequence last es e h.1 eq)

HasDistinctIds-append :
    (es : List Event) (e : Event)
    → HasDistinctIds es
    → All (λ x. with_id e.event_id x ≡ false) es
    → HasDistinctIds (es ++ e ∷ [])
HasDistinctIds-append [] e h fresh = (tt, tt)
HasDistinctIds-append (x ∷ es) e h fresh =
    (All-append _ es (e ∷ []) h.0 (ground arith, tt), HasDistinctIds-append es e h.1 fresh.1)

same_time-chosen_time : (d : Draw) (t : Option ℕ) → same_time (chosen_time d t) t ≡ true
unfolding chosen_time
same_time-chosen_time d none = refl
same_time-chosen_time d (some t) = ==_self t

module _ (d : Draw) (n : NewEvent) (l : EventLog) where
  same_event-new_event : same_event (new_event d n l) n ≡ true
  unfolding same_event new_event
  same_event-new_event = simp (is_same_self, option_eq_self, same_time-chosen_time)

  same_chosen : (e : Event) → new_event d n l ≡ e → same_event e n ≡ true
  same_chosen e p = subst (λ x. same_event x n ≡ true) p same_event-new_event

  -- The outcomes of an append that succeeds: the row with that id, or a new last row.
  abbrev pub Appended : Event → EventLog → Type 0
  Appended e m =
      ((m ≡ l) × (select_one (with_id (chosen_id d n.event_id)) l.rows ≡ some e))
      ⊎ ((m ≡ record { rows = l.rows ++ e ∷ []; last = suc l.last })
          × (select_one (with_id (chosen_id d n.event_id)) l.rows ≡ none)
          × (e ≡ new_event d n l))

  outcome :
      (o : Option Event) (e : Event) (m : EventLog)
      → select_one (with_id (chosen_id d n.event_id)) l.rows ≡ o
      → reuse_or_insert d n l o ≡ ok (e, m)
      → Appended e m × (same_event e n ≡ true)
  unfolding reuse_or_insert insert_event
  outcome none e m found h = (inr (ground arith, found, ground arith), same_chosen e (ground arith))
  outcome (some x) e m found h = (inl (ground arith, ground arith), ground arith)

  pub append-Appended :
      (e : Event) (m : EventLog) → append d n l ≡ ok (e, m) → Appended e m × (same_event e n ≡ true)
  unfolding append
  append-Appended e m h = outcome (select_one (with_id (chosen_id d n.event_id)) l.rows) e m refl h

new_event_facts :
    (d : Draw) (n : NewEvent) (l : EventLog) (e : Event)
    → e ≡ new_event d n l
    → (e.event_id ≡ chosen_id d n.event_id) × (e.sequence ≡ suc l.last)
unfolding new_event
new_event_facts d n l e h = (ap (λ (x : Event). x.event_id) h, ap (λ (x : Event). x.sequence) h)

-- A successful append leaves the rows that were there unchanged and in place, and keeps the
-- sequence numbers rising and the event ids distinct.
pub append-IsLog :
    (d : Draw) (n : NewEvent) (l : EventLog) (e : Event) (m : EventLog)
    → IsLog l
    → append d n l ≡ ok (e, m)
    → IsLog m × Extends l m
append-IsLog d n l e m h a = after (append-Appended d n l e m a).0
  where
    after : Appended d n l e m → IsLog m × Extends l m
    after (inl (same, found)) = (
      subst IsLog (sym same) h,
      (record { added = []; kept = rw same (sym (append-nil l.rows)) }),
    )
    after (inr (grown, absent, new)) = (
      subst IsLog (sym grown) (record {
        ascending = Ascends-append 0 l.last l.rows e h.ascending (new_event_facts d n l e new).1;
        distinct = HasDistinctIds-append l.rows e h.distinct (
            select_one-none (with_id e.event_id) l.rows
              (rw (new_event_facts d n l e new).0 absent));
      }),
      record { added = e ∷ []; kept = ap (λ (x : EventLog). x.rows) grown },
    )

explicit_id :
    (d : Draw) (n : NewEvent) (i : ℕ) → n.event_id ≡ some (suc i) → chosen_id d n.event_id ≡ suc i
unfolding chosen_id
explicit_id d n i h = ground arith

absent_at :
    (d : Draw) (n : NewEvent) (i : ℕ) (l : EventLog)
    → n.event_id ≡ some (suc i)
    → select_one (with_id (chosen_id d n.event_id)) l.rows ≡ none
    → select_one (with_id (suc i)) l.rows ≡ none
absent_at d n i l id absent = rw (explicit_id d n i id) at absent

found_after :
    (d d' : Draw) (n : NewEvent) (i : ℕ) (l : EventLog) (e : Event) (m : EventLog)
    → n.event_id ≡ some (suc i)
    → Appended d n l e m
    → select_one (with_id (chosen_id d' n.event_id)) m.rows ≡ some e
unfolding Option.or_else
found_after d d' n i l e m id (inl (same, found)) =
    rw (explicit_id d' n i id, same) (rw (explicit_id d n i id) at found)
found_after d d' n i l e m id (inr (grown, absent, new)) =
    rw (explicit_id d' n i id, grown, select_one-append)
      (ground
        (arith, new_event_facts d n l e new, explicit_id d n i id, absent_at d n i l id absent))

-- An append under an explicit event id can be replayed at any later time on the log that it left:
-- it returns the same row and changes nothing.
pub append_replay :
    (d d' : Draw) (n : NewEvent) (i : ℕ) (l : EventLog) (e : Event) (m : EventLog)
    → n.event_id ≡ some (suc i)
    → append d n l ≡ ok (e, m)
    → append d' n m ≡ ok (e, m)
unfolding append reuse_or_insert
append_replay d d' n i l e m id a =
    let (how, same) = append-Appended d n l e m a in
    rw (found_after d d' n i l e m id how, reuse_or_insert, same)

-- The log stays well formed and only grows.
abbrev pub LogGrows : EventLog → EventLog → Type 0
LogGrows l m = IsLog l → IsLog m × Extends l m

pub LogGrows-refl : (l : EventLog) → LogGrows l l
LogGrows-refl l h = (h, record { added = []; kept = sym (append-nil l.rows) })

pub LogGrows-trans : (l m n : EventLog) → LogGrows l m → LogGrows m n → LogGrows l n
LogGrows-trans l m n f g h =
    let (hm, a) = f h in
    let (hn, b) = g hm in
    (
      hn,
      record {
        added = a.added ++ b.added;
        kept =
            b.kept
            ∙ ap (λ (x : List Event). x ++ b.added) a.kept
            ∙ append_assoc l.rows a.added b.added;
      },
    )

pub LogGrows-append :
    (d : Draw) (n : NewEvent) (l : EventLog) (e : Event) (m : EventLog)
    → append d n l ≡ ok (e, m)
    → LogGrows l m
LogGrows-append d n l e m a h = append-IsLog d n l e m h a

chosen_drawn :
    (d : Draw) (n : NewEvent) (l : EventLog)
    → n.event_id ≡ none
    → select_one (with_id d.uuid) l.rows ≡ none
    → select_one (with_id (chosen_id d n.event_id)) l.rows ≡ none
unfolding chosen_id
chosen_drawn d n l id fresh = ap (λ o. select_one (with_id (chosen_id d o)) l.rows) id ∙ fresh

grown : Draw → NewEvent → EventLog → EventLog
grown d n l = record { rows = l.rows ++ new_event d n l ∷ []; last = suc l.last }

inserted :
    (d : Draw) (n : NewEvent) (l : EventLog)
    → round_check n.round_number ≡ true
    → reuse_or_insert d n l none ≡ ok (new_event d n l, grown d n l)
unfolding reuse_or_insert insert_event grown
inserted d n l round = rw round

-- An event with a drawn id that the log does not hold is inserted.
pub append_fresh :
    (d : Draw) (n : NewEvent) (l : EventLog)
    → n.event_id ≡ none
    → round_check n.round_number ≡ true
    → select_one (with_id d.uuid) l.rows ≡ none
    → (e : Event) × (m : EventLog) × (append d n l ≡ ok (e, m)) × (m.rows ≡ l.rows ++ e ∷ [])
unfolding append grown
append_fresh d n l id round fresh = (
  new_event d n l,
  grown d n l,
  ap (reuse_or_insert d n l) (chosen_drawn d n l id fresh) ∙ inserted d n l round,
  refl,
)
