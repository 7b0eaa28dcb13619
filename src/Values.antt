-- ===== src/Values.antt =====
-- The dynamic values that JSON documents and `.tmem` plans hold, and the built-in conversions
-- `int`, `float`, `str` and `bool` on them. Floats are a parameter: a carrier with the tests and
-- conversions that the code calls.
pub mod Decimal
pub mod RoundTrip
use Prim.Native.Char.{Char, code}
use Prim.Native.String
use tile_mem.Common.{
  leb, ◌==◌, str_eq, if◌then◌else◌, ℤ, pos, negsuc, eqb_ℤ, str_int, Dict, value_error, key_error,
  type_error, attribute_error, Result, ok, err, ℕ, zero, suc, ◌+◌, ◌-◌, ◌*◌, String, Bool, true,
  false, not, ◌&&◌, ◌||◌, Option, none, some, List, [], ◌∷◌,
}

mutual
  pub data Value (F : Type 0) : Type 0 where
    null : Value F
    bool : Bool → Value F
    int : ℤ → Value F
    float : F → Value F
    str : String → Value F
    list : Items F → Value F
    dict : Fields F → Value F

  pub data Items (F : Type 0) : Type 0 where
    nil : Items F
    cons : Value F → Items F → Items F

  pub data Fields (F : Type 0) : Type 0 where
    end : Fields F
    field : String → Value F → Fields F → Fields F

-- What the code uses of Python's `float`, and `str` of a float or a container.
pub record Floats : Type 1 where
  pub Float : Type 0
  pub lt : Float → Float → Bool
  pub of_int : ℤ → Float
  pub of_text : String → Option Float
  -- `int(x)`; none where `x` is infinite or not a number
  pub truncate : Float → Option ℤ
  -- `bool(x)`
  pub truth : Float → Bool
  pub text : Value Float → String

module _ {F : Type 0} where
  abbrev pub items_of : List (Value F) → Items F
  items_of [] = nil
  items_of (v ∷ vs) = cons v (items_of vs)

  abbrev pub list_of : Items F → List (Value F)
  list_of nil = []
  list_of (cons v vs) = v ∷ list_of vs

  abbrev pub fields_of : Dict (Value F) → Fields F
  fields_of [] = end
  fields_of ((k, v) ∷ d) = field k v (fields_of d)

  -- `data.get(k)`
  unfoldable pub find : String → Fields F → Option (Value F)
  find k end = none
  find k (field j v fs) = if str_eq j k then some v else find k fs

  -- `data[k]`
  unfoldable pub index : String → Fields F → Result (Value F)
  unfolding find
  index k fs = elim (find k fs) [ none ↦ err (key_error k) | some v ↦ ok v ]

  -- `data.get(k, d)`
  unfoldable pub get : String → Value F → Fields F → Value F
  unfolding find
  get k d fs = elim (find k fs) [ none ↦ d | some v ↦ v ]

  unfoldable pub as_dict : Value F → Result (Fields F)
  as_dict (dict fs) = ok fs
  as_dict _ = err (type_error "value is not subscriptable by text")

  -- `data.items()`
  unfoldable pub entries : Fields F → Dict (Value F)
  entries end = []
  entries (field k v fs) = (k, v) ∷ entries fs

  unfoldable pub as_mapping : Value F → Result (Dict (Value F))
  unfolding entries
  as_mapping (dict fs) = ok (entries fs)
  as_mapping _ = err (attribute_error "value has no items")

  chars : String → List (Value F)
  chars String.[] = []
  chars (String.◌∷◌ c s) = str (String.◌∷◌ c String.[]) ∷ chars s

  keys : Fields F → List (Value F)
  keys end = []
  keys (field k v fs) = str k ∷ keys fs

  -- What a `for` loop over the value runs through.
  unfoldable pub iterate : Value F → Result (List (Value F))
  unfolding chars keys
  iterate (list vs) = ok (list_of vs)
  iterate (str s) = ok (chars s)
  iterate (dict fs) = ok (keys fs)
  iterate _ = err (type_error "value is not iterable")

unfoldable pub is_space : ℕ → Bool
is_space c = c == 32 || (leb 9 c && leb c 13) || (leb 28 c && leb c 31)

-- Nothing but blanks is left: the number is complete.
blank_after : String → ℕ → Option ℕ
unfolding is_space
blank_after String.[] n = some n
blank_after (String.◌∷◌ c s) n =
    let rest = blank_after s n in if is_space (code c) then rest else none

-- The digits of an integer literal. One `_` may stand between two digits; `seen` says that the
-- last character was a digit.
unfoldable pub read_digits : String → ℕ → Bool → Option ℕ
unfolding is_space blank_after
read_digits String.[] n seen = if seen then some n else none
read_digits (String.◌∷◌ c s) n seen =
    let more = read_digits s (n * 10 + (code c - 48)) true in
    let skip = read_digits s n false in
    if leb 48 (code c) && leb (code c) 57
    then more
    else if seen && code c == 95
    then skip
    else if seen && is_space (code c)
    then blank_after s n
    else none

unfoldable pub negated : ℕ → ℤ
negated zero = pos 0
negated (suc n) = negsuc n

-- `int(text)`: blanks, a sign, digits. (Only ASCII digits and blanks are read.)
unfoldable pub int_of_text : String → Option ℤ
unfolding is_space read_digits negated
int_of_text String.[] = none
int_of_text (String.◌∷◌ c s) =
    let skipped = int_of_text s in
    if is_space (code c)
    then skipped
    else if code c == 45
    then elim (read_digits s 0 false) [ none ↦ none | some n ↦ some (negated n) ]
    else if code c == 43
    then elim (read_digits s 0 false) [ none ↦ none | some n ↦ some (pos n) ]
    else elim (read_digits (String.◌∷◌ c s) 0 false) [ none ↦ none | some n ↦ some (pos n) ]

module _ (fl : Floats) where
  open fl use {Float, of_int, of_text, truncate, truth, text}

  -- `int(value)`
  unfoldable pub to_int : Value Float → Result ℤ
  to_int (bool true) = ok (pos 1)
  to_int (bool false) = ok (pos 0)
  to_int (int n) = ok n
  to_int (float x) = elim (truncate x) [
    | none ↦ err (value_error "cannot convert float to integer")
    | some n ↦ ok n
  ]
  to_int (str s) = elim (int_of_text s) [
    | none ↦ err (value_error "invalid literal for int()")
    | some n ↦ ok n
  ]
  to_int _ = err (type_error "int() argument must be a string or a number")

  -- `float(value)`
  unfoldable pub to_float : Value Float → Result Float
  to_float (bool true) = ok (of_int (pos 1))
  to_float (bool false) = ok (of_int (pos 0))
  to_float (int n) = ok (of_int n)
  to_float (float x) = ok x
  to_float (str s) = elim (of_text s) [
    | none ↦ err (value_error "could not convert string to float")
    | some x ↦ ok x
  ]
  to_float _ = err (type_error "float() argument must be a string or a number")

  -- `str(value)`
  unfoldable pub to_str : Value Float → String
  to_str null = "None"
  to_str (bool true) = "True"
  to_str (bool false) = "False"
  to_str (int n) = str_int n
  to_str (str s) = s
  to_str v = text v

  -- `bool(value)`
  unfoldable pub to_bool : Value Float → Bool
  to_bool null = false
  to_bool (bool b) = b
  to_bool (int n) = not (eqb_ℤ n (pos 0))
  to_bool (float x) = truth x
  to_bool (str s) = not (str_eq s "")
  to_bool (list nil) = false
  to_bool (list (cons v vs)) = true
  to_bool (dict end) = false
  to_bool (dict (field k v fs)) = true
