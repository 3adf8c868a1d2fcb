-- ===== src/Orchestration/RunControl/Units.antt =====
-- The length of a text in UTF-16 units and its first units; a half of a pair is left out.
use Prim.Native.Char.{Char, code}
use Prim.Native.String.{String}
use rector.Prelude.{ℕ, ◌+◌, ◌-◌, if◌then◌else◌, ltb}

abbrev units_of : Char → ℕ
units_of c = if ltb (code c) 65536 then 1 else 2

pub text_units : String → ℕ
text_units String.[] = 0
text_units (String.◌∷◌ c s) = units_of c + text_units s

-- `s.slice(0, n)`.
unfoldable pub slice_units : ℕ → String → String
slice_units n String.[] = ""
slice_units n (String.◌∷◌ c s) =
    let rest = slice_units (n - units_of c) s in
    if ltb n (units_of c) then "" else String.◌∷◌ c rest
