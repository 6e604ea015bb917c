-- ===== src/Common/Text.antt =====
-- Python's text: `str.strip`, the order of code points, which `sorted` and SQLite's ORDER BY use, and
-- a stable sort, which is `sorted` with a key.
use Prim.Native.Char.{code}
use Prim.Native.String.{String}
use mathlib.Core.Path.{◌≡◌, refl}
use native.Mathlib.Omega.{arith}
use mathlib.Core.List.{List, [], ◌∷◌}
use text.Mathlib.Text.{◌==◌ as str_eq}
use imperial_auto_governor.Common.Tests.{ltb, leb, ◌==◌, if◌then◌else◌}
use imperial_auto_governor.Common.Lists.{length, any, contains}
use Prim.Native.Nat.{ℕ, suc}
use mathlib.Core.Bool.{Bool, true, false, ◌&&◌, ◌||◌}

-- `str.isspace` of one character.
unfoldable pub is_space : ℕ → Bool
is_space c =
    (leb 9 c && leb c 13)
    || ((leb 28 c && leb c 32)
        || (c == 0x85
            || (c == 0xa0
                || (c == 0x1680
                    || ((leb 0x2000 c && leb c 0x200a)
                        || (c == 0x2028
                            || (c == 0x2029 || (c == 0x202f || (c == 0x205f || c == 0x3000)))))))))

unfoldable pub lstrip : String → String
lstrip String.[] = ""
lstrip (String.◌∷◌ c s) = if is_space (code c) then lstrip s else String.◌∷◌ c s

unfoldable pub rstrip : String → String
rstrip String.[] = ""
rstrip (String.◌∷◌ c s) =
    let rest = rstrip s in if is_space (code c) && str_eq rest "" then "" else String.◌∷◌ c rest

unfoldable pub strip : String → String
unfolding lstrip rstrip is_space
strip s = rstrip (lstrip s)

-- `a <= b` on texts.
unfoldable pub text_le : String → String → Bool
text_le String.[] t = true
text_le (String.◌∷◌ c s) String.[] = false
text_le (String.◌∷◌ c s) (String.◌∷◌ d t) =
    ltb (code c) (code d) || (code c == code d && text_le s t)

-- The number of characters, `len(text)`.
unfoldable pub text_length : String → ℕ
text_length String.[] = 0
text_length (String.◌∷◌ c s) = suc (text_length s)

module _ {ℓ} {A : Type ℓ} (le : A → A → Bool) where
  unfoldable pub insert_ordered : A → List A → List A
  insert_ordered x [] = x ∷ []
  insert_ordered x (y ∷ ys) = if le x y then x ∷ y ∷ ys else y ∷ insert_ordered x ys

  unfoldable pub sort : List A → List A
  unfolding insert_ordered
  sort [] = []
  sort (x ∷ xs) = insert_ordered x (sort xs)

  length-insert_ordered : (x : A) (xs : List A) → length (insert_ordered x xs) ≡ suc (length xs)
  unfolding insert_ordered
  length-insert_ordered x [] = refl
  length-insert_ordered x (y ∷ ys) = ground (arith, length-insert_ordered x ys)

  pub length-sort : (xs : List A) → length (sort xs) ≡ length xs
  unfolding sort
  length-sort [] = refl
  length-sort (x ∷ xs) = ground (arith, length-insert_ordered x (sort xs), length-sort xs)

  any-insert_ordered :
      (p : A → Bool) (x : A) (xs : List A) → any p (insert_ordered x xs) ≡ (p x || any p xs)
  unfolding insert_ordered
  any-insert_ordered p x [] = refl
  any-insert_ordered p x (y ∷ ys) = ground (arith, any-insert_ordered p x ys)

  pub any-sort : (p : A → Bool) (xs : List A) → any p (sort xs) ≡ any p xs
  unfolding sort
  any-sort p [] = refl
  any-sort p (x ∷ xs) = ground (arith, any-insert_ordered p x (sort xs), any-sort p xs)

-- The members of a list of texts, each once.
unfoldable pub distinct : List String → List String
distinct [] = []
distinct (x ∷ xs) = let rest = distinct xs in if contains x xs then rest else x ∷ rest

-- `sorted` of a set.
unfoldable pub sorted_set : List String → List String
unfolding sort distinct text_le
sorted_set xs = sort text_le (distinct xs)
