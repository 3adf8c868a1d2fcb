-- ===== src/Prelude/Text.antt =====
-- Operations of JavaScript on texts: `toLowerCase` (of the letters A to Z), `includes`, `trim`, `join`
-- and the first token of a split at white space. A text in lower case is the list of its code points.
use Prim.Native.Char.{code}
use Prim.Native.Nat.{ℕ, ◌+◌}
use Prim.Native.String.{String, ◌++◌ as str_append}
use mathlib.Core.Bool.{Bool, true, false, ◌&&◌, ◌||◌}
use mathlib.Core.List.{List, [], ◌∷◌}
use rector.Prelude.Tests.{leb, ◌==◌, if◌then◌else◌}

lower_code : ℕ → ℕ
lower_code n = if leb 65 n && leb n 90 then n + 32 else n

unfoldable pub lower : String → List ℕ
unfolding lower_code
lower String.[] = []
lower (String.◌∷◌ c s) = lower_code (code c) ∷ lower s

unfoldable pub begins : List ℕ → List ℕ → Bool
begins [] text = true
begins (p ∷ ps) [] = false
begins (p ∷ ps) (t ∷ ts) = p == t && begins ps ts

-- Whether the second text contains the first.
unfoldable pub occurs : List ℕ → List ℕ → Bool
unfolding begins
occurs ps [] = begins ps []
occurs ps (t ∷ ts) = begins ps (t ∷ ts) || occurs ps ts

unfoldable pub same_text : List ℕ → List ℕ → Bool
same_text [] [] = true
same_text (x ∷ xs) (y ∷ ys) = x == y && same_text xs ys
same_text _ _ = false

is_space : ℕ → Bool
is_space n =
    (leb 9 n && leb n 13)
    || n == 32
    || n == 160
    || n == 5760
    || (leb 8192 n && leb n 8202)
    || n == 8232
    || n == 8233
    || n == 8239
    || n == 8287
    || n == 12288
    || n == 65279

unfoldable pub trim_start : String → String
unfolding is_space
trim_start String.[] = ""
trim_start (String.◌∷◌ c s) =
    let rest = trim_start s in if is_space (code c) then rest else String.◌∷◌ c s

abbrev is_nil : String → Bool
is_nil String.[] = true
is_nil (String.◌∷◌ c s) = false

unfoldable pub trim_end : String → String
unfolding is_space
trim_end String.[] = ""
trim_end (String.◌∷◌ c s) =
    let rest = trim_end s in if is_space (code c) && is_nil rest then "" else String.◌∷◌ c rest

unfoldable pub trim : String → String
unfolding trim_start trim_end
trim s = trim_end (trim_start s)

-- `s.split(/\s+/)[0]`.
unfoldable pub first_token : String → String
unfolding is_space
first_token String.[] = ""
first_token (String.◌∷◌ c s) =
    let rest = first_token s in if is_space (code c) then "" else String.◌∷◌ c rest

unfoldable pub join : String → List String → String
join separator [] = ""
join separator (x ∷ []) = x
join separator (x ∷ y ∷ ys) = str_append x (str_append separator (join separator (y ∷ ys)))
