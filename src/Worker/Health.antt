-- ===== src/Worker/Health.antt =====
-- `_requires_health_check` of worker/service.py, and where in a result it finds a failure.
use Prim.Native.String.{String}
use text.Mathlib.Text.{◌==◌ as str_eq}
use kernel_generation_china.Prelude.{◌≡◌, refl, ◌⊎◌, inl, inr, Bool, true, false, ◌||◌, ◌↔◌, arith}
use kernel_generation_china.Evaluation.Values.{
  Value, null, bool, number, string, sequence, mapping, Items, end, item, Fields, empty, field,
  Conversions, get, get_value,
}
use kernel_generation_china.Evaluation.Stages.{status_text}

-- `value is True`
abbrev pub is_true_value : Value → Bool
is_true_value (bool b) = b
is_true_value _ = false

-- A mapping that itself reports an error, a timeout or a process that was cut off.
unfoldable pub reports_failure : Conversions → Fields → Bool
reports_failure c m =
    let status = c.lower (status_text c (get "status" m)) in
    str_eq status "error"
    || str_eq status "timeout"
    || is_true_value (get_value "output_limit_exceeded" m)
    || is_true_value (get_value "terminated" m)
    || is_true_value (get_value "timed_out" m)

unfoldable mutual
  pub requires_health_check : Conversions → Value → Bool
  requires_health_check c (mapping m) = reports_failure c m || any_field c m
  requires_health_check c (sequence xs) = any_item c xs
  requires_health_check c _ = false

  pub any_item : Conversions → Items → Bool
  any_item c end = false
  any_item c (item v vs) = requires_health_check c v || any_item c vs

  pub any_field : Conversions → Fields → Bool
  any_field c empty = false
  any_field c (field k v rest) = requires_health_check c v || any_field c rest

-- The mappings inside a value, at any depth.
mutual
  pub data Inside (m : Fields) : Value → Type 0 where
    itself : Inside m (mapping m)
    in_sequence : {xs : Items} → InItems m xs → Inside m (sequence xs)
    in_mapping : {fs : Fields} → InFields m fs → Inside m (mapping fs)

  pub data InItems (m : Fields) : Items → Type 0 where
    here : {v : Value} {vs : Items} → Inside m v → InItems m (item v vs)
    later : {v : Value} {vs : Items} → InItems m vs → InItems m (item v vs)

  pub data InFields (m : Fields) : Fields → Type 0 where
    first : {k : String} {v : Value} {rest : Fields} → Inside m v → InFields m (field k v rest)
    next : {k : String} {v : Value} {rest : Fields} → InFields m rest → InFields m (field k v rest)

module _ (c : Conversions) where
  either : (a b : Bool) → (a || b) ≡ true → (a ≡ true) ⊎ (b ≡ true)
  either a b h = ground arith

  or_right : (a b : Bool) → b ≡ true → (a || b) ≡ true
  or_right true b h = refl
  or_right false b h = h

  or_left : (a b : Bool) → a ≡ true → (a || b) ≡ true
  or_left a b h = rw h refl

  mutual
    unfolding requires_health_check any_item any_field

    found :
        (v : Value)
        → requires_health_check c v ≡ true
        → (m : Fields) × Inside m v × (reports_failure c m ≡ true)
    found null h = cc
    found (bool b) h = cc
    found (number x) h = cc
    found (string s) h = cc
    found (sequence xs) h = let (m, i, r) = found_item xs h in (m, in_sequence i, r)
    found (mapping m) h = elim (either (reports_failure c m) (any_field c m) h) [
      | inl r ↦ (m, itself, r)
      | inr k ↦ let (n, i, r) = found_field m k in (n, in_mapping i, r)
    ]

    found_item :
        (xs : Items)
        → any_item c xs ≡ true
        → (m : Fields) × InItems m xs × (reports_failure c m ≡ true)
    found_item end h = cc
    found_item (item v vs) h = elim (either (requires_health_check c v) (any_item c vs) h) [
      | inl k ↦ let (m, i, r) = found v k in (m, here i, r)
      | inr k ↦ let (m, i, r) = found_item vs k in (m, later i, r)
    ]

    found_field :
        (fs : Fields)
        → any_field c fs ≡ true
        → (m : Fields) × InFields m fs × (reports_failure c m ≡ true)
    found_field empty h = cc
    found_field (field k v rest) h =
        elim (either (requires_health_check c v) (any_field c rest) h) [
          | inl e ↦ let (m, i, r) = found v e in (m, first i, r)
          | inr e ↦ let (m, i, r) = found_field rest e in (m, next i, r)
        ]

  module _ (m : Fields) (r : reports_failure c m ≡ true) where
    mutual
      unfolding requires_health_check any_item any_field

      checked : (v : Value) → Inside m v → requires_health_check c v ≡ true
      checked null i = elim i [ ]
      checked (bool b) i = elim i [ ]
      checked (number x) i = elim i [ ]
      checked (string s) i = elim i [ ]
      checked (mapping m) itself = or_left (reports_failure c m) (any_field c m) r
      checked (sequence xs) (in_sequence i) = checked_item xs i
      checked (mapping fs) (in_mapping i) =
          or_right (reports_failure c fs) (any_field c fs) (checked_field fs i)

      checked_item : (xs : Items) → InItems m xs → any_item c xs ≡ true
      checked_item end i = elim i [ ]
      checked_item (item v vs) (here i) =
          or_left (requires_health_check c v) (any_item c vs) (checked v i)
      checked_item (item v vs) (later i) =
          or_right (requires_health_check c v) (any_item c vs) (checked_item vs i)

      checked_field : (fs : Fields) → InFields m fs → any_field c fs ≡ true
      checked_field empty i = elim i [ ]
      checked_field (field k v rest) (first i) =
          or_left (requires_health_check c v) (any_field c rest) (checked v i)
      checked_field (field k v rest) (next i) =
          or_right (requires_health_check c v) (any_field c rest) (checked_field rest i)

  -- The device is checked after a result exactly if some mapping in it, at any depth, reports an
  -- error, a timeout, or a process that was terminated, timed out or wrote too much.
  pub health_check_iff :
      (v : Value)
      → (requires_health_check c v ≡ true)
        ↔ ((m : Fields) × Inside m v × (reports_failure c m ≡ true))
  health_check_iff v = (found v, λ (m, i, r). checked m r v i)
