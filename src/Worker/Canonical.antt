-- ===== src/Worker/Canonical.antt =====
-- `canonical_json_dumps` and `_json_compatible` of storage/database.py on the documents that a
-- worker reports.
use Prim.Native.String.{String}
use text.Mathlib.Text.{◌==◌ as str_eq}
use text.Mathlib.TextEquality.{eq_iff}
use kernel_generation_china.Prelude.{
  ◌≡◌, refl, sym, subst, inl, inr, Bool, Bool-cases, true, false, ◌||◌, some, List, [], ◌∷◌, arith,
}
use kernel_generation_china.Prelude.Result.{
  Result, ok, value_error, require, ◌>>=◌, ◌>>◌, >>=-eq-ok,
}
use kernel_generation_china.Domain.Float.{is_finite}
use kernel_generation_china.Storage.Events.{Json}
use kernel_generation_china.Evaluation.Values.{
  Value, null, bool, number, string, sequence, mapping, Items, end, item, Fields, empty, field, get,
}

-- One of the keys, `k in keys`.
unfoldable pub is_key : String → List String → Bool
is_key k [] = false
is_key k (x ∷ xs) = str_eq x k || is_key k xs

-- An entry whose key has been seen is not in the mapping.
abbrev pub unless_hidden : Bool → String → Result Value → Result Fields → Result Fields
unless_hidden true k value rest = rest
unless_hidden false k value rest = do first ← value; others ← rest; ok (field k first others)

-- The value as json.dumps takes it: a number that is not finite raises ValueError. Of two entries
-- with one key the second is not in the mapping; `seen` are the keys before.
unfoldable mutual
  pub json_compatible : Value → Result Value
  json_compatible null = ok null
  json_compatible (bool b) = ok (bool b)
  json_compatible (number x) = do require (is_finite x) value_error; ok (number x)
  json_compatible (string s) = ok (string s)
  json_compatible (sequence xs) = do items ← compatible_items xs; ok (sequence items)
  json_compatible (mapping m) = do fields ← compatible_fields [] m; ok (mapping fields)

  pub compatible_items : Items → Result Items
  compatible_items end = ok end
  compatible_items (item v rest) = do
    first ← json_compatible v
    others ← compatible_items rest
    ok (item first others)

  pub compatible_fields : List String → Fields → Result Fields
  compatible_fields seen empty = ok empty
  compatible_fields seen (field k v rest) =
      unless_hidden (is_key k seen) k (json_compatible v) (compatible_fields (k ∷ seen) rest)

-- `dumps` is json.dumps with sorted keys and without spaces.
unfoldable pub canonical_json_dumps : (Value → Json) → Fields → Result Json
canonical_json_dumps dumps m = do value ← json_compatible (mapping m); ok (dumps value)

-- `canonical_json_dumps` returns a text.
abbrev pub IsCompatible : Fields → Type 0
IsCompatible m = (fields : Fields) × (compatible_fields [] m ≡ ok fields)

pub IsCompatible-dumps :
    (dumps : Value → Json) (m : Fields)
    → IsCompatible m
    → (text : Json) × (canonical_json_dumps dumps m ≡ ok text)
unfolding canonical_json_dumps json_compatible
IsCompatible-dumps dumps m (fields, is) = (dumps (mapping fields), rw is refl)

-- The entries after one that is encoded are encoded, and so is its value unless it is hidden.
compatible_entry :
    (k : String) (v : Value) (seen : List String) (rest fields : Fields)
    → compatible_fields seen (field k v rest) ≡ ok fields
    → ((others : Fields) × (compatible_fields (k ∷ seen) rest ≡ ok others))
      × (is_key k seen ≡ false → (w : Value) × (json_compatible v ≡ ok w))
unfolding compatible_fields
compatible_entry k v seen rest fields h =
    cases (is_key k seen) (json_compatible v) (compatible_fields (k ∷ seen) rest) h
  where
    cases :
        (b : Bool) (value : Result Value) (others : Result Fields)
        → unless_hidden b k value others ≡ ok fields
        → ((m : Fields) × (others ≡ ok m)) × (b ≡ false → (w : Value) × (value ≡ ok w))
    cases true value others h = ((fields, h), λ no. absurd (cc))
    cases false value others h =
        let (w, is, h1) = >>=-eq-ok value _ h in
        let (m, found, _) = >>=-eq-ok others _ h1 in ((m, found), λ _. (w, is))

-- The value under a key that is not hidden is encoded where the mapping is.
get_compatible :
    (k : String) (v : Value) (seen : List String) (m fields : Fields)
    → compatible_fields seen m ≡ ok fields
    → is_key k seen ≡ false
    → get k m ≡ some v
    → (w : Value) × (json_compatible v ≡ ok w)
unfolding get is_key
get_compatible k v seen empty fields h unseen g = absurd (cc)
get_compatible k v seen (field x y rest) fields h unseen g = elim (Bool-cases (str_eq x k)) [
  | inl same ↦
      let is : x ≡ k = (eq_iff x k).0 same in
      let found : some y ≡ some v = rw same at g in
      let value : y ≡ v = ground arith in
      let (w, encoded) =
        (compatible_entry x y seen rest fields h).1
          (subst (λ z. is_key z seen ≡ false) (sym is) unseen) in
      (w, subst (λ z. json_compatible z ≡ ok w) value encoded)
  | inr other ↦
      let found : get k rest ≡ some v = rw other at g in
      let (others, rest_is) = (compatible_entry x y seen rest fields h).0 in
      get_compatible k v (x ∷ seen) rest others rest_is (rw (other, unseen) refl) found
]

-- A mapping under a key of a mapping that is encoded is encoded.
pub IsCompatible-get :
    (k : String) (inner m : Fields)
    → IsCompatible m
    → get k m ≡ some (mapping inner)
    → IsCompatible inner
unfolding json_compatible is_key
IsCompatible-get k inner m (fields, is) found =
    let (w, encoded) = get_compatible k (mapping inner) [] m fields is refl found in
    let (others, rest, _) = >>=-eq-ok (compatible_fields [] inner) _ encoded in (others, rest)
