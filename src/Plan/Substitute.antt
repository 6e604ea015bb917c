-- ===== src/Plan/Substitute.antt =====
-- src/iag/core/application_plan.py: `_substitute_prepare_values`. A text "$prepare.a.b" stands for the
-- member "b" of the member "a" of the prepared result.
use Prim.Native.Char.{code}
use imperial_auto_governor.Common.{String, Option, none, some, List, [], ◌∷◌, ◌==◌, if◌then◌else◌}
use imperial_auto_governor.Plan.Json.{
  Json, null, boolean, integer, decimal, text, array, object, Items, nil, cons, Fields, end, field,
  get_field, fields_of,
}
use imperial_auto_governor.Plan.Node.{Result, ok, err, ◌>>=◌, missing_interpolation}

-- `s.removeprefix(prefix)` of a text that starts with it.
unfoldable pub without_prefix : String → String → Option String
without_prefix String.[] s = some s
without_prefix (String.◌∷◌ c p) String.[] = none
without_prefix (String.◌∷◌ c p) (String.◌∷◌ d s) =
    let rest = without_prefix p s in if code c == code d then rest else none

-- `s.split(".")`
unfoldable pub split_dots : String → List String
split_dots String.[] = "" ∷ []
split_dots (String.◌∷◌ c s) =
    let rest = split_dots s in
    if code c == b'.'
    then "" ∷ rest
    else elim rest [ [] ↦ String.◌∷◌ c "" ∷ [] | word ∷ words ↦ String.◌∷◌ c word ∷ words ]

-- The loop over the keys of a path.
unfoldable pub member_at : String → List String → Json → Result Json
unfolding get_field
member_at path [] v = ok v
member_at path (k ∷ ks) v = elim (fields_of v) [
  | none ↦ err (missing_interpolation path)
  | some fs ↦ elim (get_field k fs) [
    | none ↦ err (missing_interpolation path)
    | some child ↦ member_at path ks child
  ]
]

unfoldable pub substitute_text : Json → String → Result Json
unfolding without_prefix split_dots member_at
substitute_text prepared s = elim (without_prefix "$prepare." s) [
  | none ↦ ok (text s)
  | some path ↦ member_at s (split_dots path) prepared
]

unfoldable mutual
  unfolding substitute_text

  pub substitute : Json → Json → Result Json
  substitute prepared null = ok null
  substitute prepared (boolean b) = ok (boolean b)
  substitute prepared (integer n) = ok (integer n)
  substitute prepared (decimal n) = ok (decimal n)
  substitute prepared (text s) = substitute_text prepared s
  substitute prepared (array xs) = substitute_items prepared xs >>= λ ys. ok (array ys)
  substitute prepared (object fs) = substitute_fields prepared fs >>= λ gs. ok (object gs)

  pub substitute_items : Json → Items → Result Items
  substitute_items prepared nil = ok nil
  substitute_items prepared (cons x xs) =
      substitute prepared x >>= λ y. substitute_items prepared xs >>= λ ys. ok (cons y ys)

  pub substitute_fields : Json → Fields → Result Fields
  substitute_fields prepared end = ok end
  substitute_fields prepared (field k x fs) =
      substitute prepared x >>= λ y. substitute_fields prepared fs >>= λ gs. ok (field k y gs)
