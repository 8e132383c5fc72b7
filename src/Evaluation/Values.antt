-- ===== src/Evaluation/Values.antt =====
-- The values of a JSON document as Python's json module reads them, and what evaluation/*.py asks
-- of them: `get`, `isinstance`, truth, `str` and `float`.
use Prim.Native.String.{String}
use text.Mathlib.Text.{◌==◌ as str_eq}
use mathlib.Core.Option
use kernel_generation_china.Prelude.{ℕ, Bool, true, false, not, Option, none, some, if◌then◌else◌}
use kernel_generation_china.Prelude.Int.{ℤ, pos}
use kernel_generation_china.Prelude.Result.{Result}
use kernel_generation_china.Domain.Float.{Float}

-- Of two entries of a mapping with one key the first counts; their order does not matter else.
mutual
  pub data Value : Type 0 where
    null : Value
    bool : Bool → Value
    number : Float → Value
    string : String → Value
    sequence : Items → Value
    mapping : Fields → Value

  pub data Items : Type 0 where
    end : Items
    item : Value → Items → Items

  pub data Fields : Type 0 where
    empty : Fields
    field : String → Value → Fields → Fields

-- The conversions of Python that this library does not define: `str` of a value that is no text,
-- `float(value)`, none where it raises, `int(value)`, and letter case.
pub record Conversions : Type 0 where
  pub str : Value → String
  pub to_float : Value → Option Float
  pub to_int : Value → Result ℤ
  pub lower : String → String
  pub upper : String → String

-- `m.get(key)`
unfoldable pub get : String → Fields → Option Value
get key empty = none
get key (field k v rest) = if str_eq k key then some v else get key rest

-- `m.get(key)` where an absent key and None are alike.
abbrev pub get_value : String → Fields → Value
get_value key m = Option.get_or (get key m) null

-- `{**a, **b}`
unfoldable pub merge : Fields → Fields → Fields
merge a empty = a
merge a (field k v rest) = field k v (merge a rest)

-- `isinstance(value, Mapping)`
abbrev pub as_mapping : Value → Option Fields
as_mapping (mapping m) = some m
as_mapping _ = none

-- `bool(value)`
abbrev pub is_truthy : Value → Bool
is_truthy null = false
is_truthy (bool b) = b
is_truthy (number (pos ℕ.zero)) = false
is_truthy (number _) = true
is_truthy (string s) = not (str_eq s "")
is_truthy (sequence end) = false
is_truthy (sequence (item _ _)) = true
is_truthy (mapping empty) = false
is_truthy (mapping (field _ _ _)) = true

-- `a or b`
abbrev pub or_else : Value → Value → Value
or_else a b = if is_truthy a then a else b

abbrev pub to_str : Conversions → Value → String
to_str c (string s) = s
to_str c v = c.str v
