-- ===== src/Plan/Json.antt =====
-- JSON values, as Python holds them: `==`, truth, numbers and members. The keys of an object are texts.
-- A float is a number of millionths, in exact arithmetic, so that `1 == 1.0` and `True == 1` hold.
use imperial_auto_governor.Common.{
  ℕ, suc, ◌*◌, ◌-◌, String, Bool, true, false, not, ◌&&◌, ◌||◌, Option, none, some, str_eq, ◌==◌,
  if◌then◌else◌,
}
use imperial_auto_governor.Common.Int.{ℤ, pos, negsuc, eqb_ℤ}

mutual
  pub data Json : Type 0 where
    null : Json
    boolean : Bool → Json
    integer : ℤ → Json
    decimal : ℤ → Json
    text : String → Json
    array : Items → Json
    object : Fields → Json

  pub data Items : Type 0 where
    nil : Items
    cons : Json → Items → Items

  pub data Fields : Type 0 where
    end : Fields
    field : String → Json → Fields → Fields

-- One, in millionths.
abbrev pub unit : ℕ
unit = 1000000

abbrev pub in_millionths : ℤ → ℤ
in_millionths (pos n) = pos (n * unit)
in_millionths (negsuc n) = negsuc (suc n * unit - 1)

-- The number that `==` compares: a bool is 0 or 1.
unfoldable pub numeric_value : Json → Option ℤ
numeric_value (boolean b) = some (if b then pos unit else pos 0)
numeric_value (integer n) = some (in_millionths n)
numeric_value (decimal n) = some n
numeric_value _ = none

-- `isinstance(value, (int, float)) and not isinstance(value, bool)`, with `float(value)`.
unfoldable pub number_of : Json → Option ℤ
number_of (integer n) = some (in_millionths n)
number_of (decimal n) = some n
number_of _ = none

unfoldable pub get_field : String → Fields → Option Json
get_field k end = none
get_field k (field j v rest) = if str_eq j k then some v else get_field k rest

unfoldable pub count_fields : Fields → ℕ
count_fields end = 0
count_fields (field j v rest) = suc (count_fields rest)

-- `value.get(key)` of a dict, where a missing key reads as None.
unfoldable pub member : String → Json → Json
unfolding get_field
member k (object fields) = elim (get_field k fields) [ none ↦ null | some v ↦ v ]
member k _ = null

-- `bool(value)`.
unfoldable pub is_truthy : Json → Bool
is_truthy null = false
is_truthy (boolean b) = b
is_truthy (integer n) = not (eqb_ℤ n (pos 0))
is_truthy (decimal n) = not (eqb_ℤ n (pos 0))
is_truthy (text s) = not (str_eq s "")
is_truthy (array nil) = false
is_truthy (array (cons x xs)) = true
is_truthy (object end) = false
is_truthy (object (field k v rest)) = true

abbrev same_number : Option ℤ → Option ℤ → Bool
same_number (some a) (some b) = eqb_ℤ a b
same_number _ _ = false

abbrev same_text : String → Json → Bool
same_text s (text t) = str_eq s t
same_text s _ = false

abbrev is_null : Json → Bool
is_null null = true
is_null _ = false

abbrev pub items_of : Json → Option Items
items_of (array xs) = some xs
items_of _ = none

abbrev pub fields_of : Json → Option Fields
fields_of (object xs) = some xs
fields_of _ = none

-- Python's `==`.
unfoldable mutual
  unfolding get_field count_fields numeric_value

  pub json_eq : Json → Json → Bool
  json_eq null b = is_null b
  json_eq (boolean a) b = same_number (numeric_value (boolean a)) (numeric_value b)
  json_eq (integer a) b = same_number (numeric_value (integer a)) (numeric_value b)
  json_eq (decimal a) b = same_number (numeric_value (decimal a)) (numeric_value b)
  json_eq (text s) b = same_text s b
  json_eq (array xs) b = elim (items_of b) [ none ↦ false | some ys ↦ items_eq xs ys ]
  json_eq (object xs) b = elim (fields_of b) [
    | none ↦ false
    | some ys ↦ (count_fields xs == count_fields ys) && fields_in xs ys
  ]

  pub items_eq : Items → Items → Bool
  items_eq nil nil = true
  items_eq nil (cons y ys) = false
  items_eq (cons x xs) nil = false
  items_eq (cons x xs) (cons y ys) = json_eq x y && items_eq xs ys

  pub fields_in : Fields → Fields → Bool
  fields_in end ys = true
  fields_in (field k x xs) ys = elim (get_field k ys) [
    | none ↦ false
    | some y ↦ json_eq x y && fields_in xs ys
  ]

-- `value in items`.
unfoldable pub in_items : Json → Items → Bool
unfolding json_eq
in_items v nil = false
in_items v (cons x xs) = json_eq v x || in_items v xs

-- What of Python the model does not define: `float` of a text, `str` of what is no text, and
-- `str.lower`.
pub record Builtins : Type 0 where
  pub float_of : String → Option ℤ
  pub rendered : Json → String
  pub lower : String → String

-- `str(value or "")`.
unfoldable pub str_or_empty : Builtins → Json → String
unfolding is_truthy
str_or_empty py (text s) = s
str_or_empty py v = if is_truthy v then py.rendered v else ""

-- `float(value)` where it does not raise.
unfoldable pub float_value : Builtins → Json → Option ℤ
unfolding numeric_value
float_value py (text s) = py.float_of s
float_value py v = numeric_value v
