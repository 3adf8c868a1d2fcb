-- ===== src/Prelude/Values.antt =====
-- JavaScript values of type `unknown`: numbers, texts, arrays and plain objects.
use Prim.Native.Nat.{ℕ}
use mathlib.Core.Bool.{Bool}
use mathlib.Core.List.{[], ◌∷◌}
use Prim.Native.String.{String}
use rector.Prelude.Maps.{Dict}

-- A JavaScript number, in millionths: `fin n` is n / 10⁶, `neg n` is -(n + 1) / 10⁶.
pub data Num : Type 0 where
  fin : ℕ → Num
  neg : ℕ → Num
  nan infinity neg_infinity : Num

mutual
  pub data Json : Type 0 where
    undefined null : Json
    bool : Bool → Json
    num : Num → Json
    str : String → Json
    arr : Items → Json
    obj : Fields → Json

  pub data Items : Type 0 where
    nil : Items
    cons : Json → Items → Items

  pub data Fields : Type 0 where
    end : Fields
    field : String → Json → Fields → Fields

-- `Record<string, unknown>`.
abbrev pub Metadata : Type 0
Metadata = Dict Json

abbrev pub fields_of : Metadata → Fields
fields_of [] = end
fields_of ((k, v) ∷ m) = field k v (fields_of m)
