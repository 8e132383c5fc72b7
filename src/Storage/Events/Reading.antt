-- ===== src/Storage/Events/Reading.antt =====
-- `read` of storage/event_log.py: a cursor over the sequence numbers.
use native.Mathlib.Nat.{zero-add, suc-add}
use kernel_generation_china.Prelude.{
  ℕ, zero, suc, ◌+◌, ◌≤◌, ◌<◌, ◌≡◌, refl, sym, ap, ◌∙◌, inl, inr, Bool, true, false, ◌&&◌, List, [],
  ◌∷◌, ◌++◌, arith, ltb, Bool-cases,
}
use kernel_generation_china.Prelude.Table.{select_all}
use kernel_generation_china.Prelude.Result.{ok}
use kernel_generation_china.Storage.Events.{Event, EventLog, Filter, passes, take, read}
use kernel_generation_china.Storage.Events.Appending.{Ascends, IsLog}

-- The cursor for the next page: the last sequence number of this page.
unfoldable pub cursor : ℕ → List Event → ℕ
cursor after [] = after
cursor after (e ∷ es) = cursor e.sequence es

module _ (f : Filter) where
  -- The rows that a read after `a` chooses from.
  abbrev pub newer : ℕ → List Event → List Event
  newer a = select_all (λ e. ltb a e.sequence && passes f e)

  abbrev chosen : ℕ → Event → Bool
  chosen a e = ltb a e.sequence && passes f e

  newer-hit :
      (a : ℕ) (e : Event) (es : List Event) → chosen a e ≡ true → newer a (e ∷ es) ≡ e ∷ newer a es
  unfolding select_all
  newer-hit a e es h = rw h

  newer-miss :
      (a : ℕ) (e : Event) (es : List Event) → chosen a e ≡ false → newer a (e ∷ es) ≡ newer a es
  unfolding select_all
  newer-miss a e es h = rw h

  above : (a : ℕ) (e : Event) → chosen a e ≡ true → a < e.sequence
  above a e h = ground arith

  skipped : (a b : ℕ) (e : Event) → a ≤ b → chosen a e ≡ false → chosen b e ≡ false
  skipped a b e le h = ground arith

  behind : (a : ℕ) (e : Event) → e.sequence ≤ a → chosen a e ≡ false
  behind a e le = ground arith

  newer_nil : (a : ℕ) → newer a [] ≡ []
  unfolding select_all
  newer_nil a = refl

  -- The cursor may stand anywhere below the rows.
  newer-low : (a b last : ℕ) (es : List Event) → Ascends b es last → a ≤ b → newer a es ≡ newer b es
  unfolding select_all
  newer-low a b last [] h le = refl
  newer-low a b last (e ∷ es) h le =
      let rest = newer-low a e.sequence last es h.1 (omega arith) in
      let rest' = newer-low b e.sequence last es h.1 (omega arith) in ground (arith, rest, rest')

  cursor-ge :
      (m a low last : ℕ) (es : List Event)
      → Ascends low es last
      → a ≤ cursor a (take m (newer a es))
  unfolding cursor take
  cursor-ge zero a low last es h = omega arith
  cursor-ge (suc m) a low last [] h = unfold select_all in omega arith
  cursor-ge (suc m) a low last (e ∷ es) h = elim (Bool-cases (chosen a e)) [
    | inl hit ↦
        rw (newer-hit a e es hit, newer-low a e.sequence last es h.1 (omega (arith, above a e hit)))
          (omega (arith, above a e hit, cursor-ge m e.sequence e.sequence last es h.1))
    | inr miss ↦ rw (newer-miss a e es miss) (cursor-ge (suc m) a e.sequence last es h.1)
  ]

  take_nil : (n : ℕ) → take {A = Event} n [] ≡ []
  unfolding take
  take_nil zero = refl
  take_nil (suc n) = refl

  page_next :
      (m n a low last : ℕ) (es : List Event)
      → Ascends low es last
      → take m (newer a es) ++ take n (newer (cursor a (take m (newer a es))) es)
        ≡ take (m + n) (newer a es)
  unfolding cursor take
  page_next zero n a low last es h = rw zero-add
  page_next (suc m) n a low last [] h =
      rw (newer_nil a, newer_nil a, take_nil n, take_nil (suc m + n))
  page_next (suc m) n a low last (e ∷ es) h = elim (Bool-cases (chosen a e)) [
    | inl hit ↦
        rw (newer-hit a e es hit, suc-add)
          (rw
            (
              newer-low a e.sequence last es h.1 (omega (arith, above a e hit)),
              newer-miss (cursor e.sequence (take m (newer e.sequence es))) e es
                  (behind _ e (cursor-ge m e.sequence e.sequence last es h.1)),
            )
            (ap (◌∷◌ e) (page_next m n e.sequence e.sequence last es h.1)))
    | inr miss ↦
        rw
          (
            newer-miss a e es miss,
            newer-miss (cursor a (take (suc m) (newer a es))) e es
                (skipped a _ e (cursor-ge (suc m) a e.sequence last es h.1) miss),
          )
          (page_next (suc m) n a e.sequence last es h.1)
  ]

  read-eq :
      (after limit : ℕ) (l : EventLog)
      → 1 ≤ limit
      → limit ≤ 10000
      → read after limit f l ≡ ok (take limit (newer after l.rows))
  unfolding read
  read-eq after limit l h k = ground arith

  -- On a log whose sequence numbers rise, a page of at most `m` rows followed by the page of at
  -- most `n` rows that is read from the first page's cursor is the page of at most `m + n` rows:
  -- paging loses no row and repeats none. All three limits have to be within 1 and 10000.
  pub read_pages :
      (m n after : ℕ) (l : EventLog) (page : List Event)
      → IsLog l
      → 1 ≤ m
      → 1 ≤ n
      → m + n ≤ 10000
      → read after m f l ≡ ok page
      → (next : List Event) × (read (cursor after page) n f l ≡ ok next)
        × (read after (m + n) f l ≡ ok (page ++ next))
  read_pages m n after l page h hm hn hmn r = (
    take n (newer (cursor after page) l.rows),
    read-eq (cursor after page) n l hn (omega arith),
    read-eq after (m + n) l (omega arith) hmn
        ∙ ap ok (sym (rw same_page (page_next m n after 0 l.last l.rows h.ascending))),
  )
    where
      same_page : page ≡ take m (newer after l.rows)
      same_page = ground (arith, read-eq after m l hm (omega arith))
