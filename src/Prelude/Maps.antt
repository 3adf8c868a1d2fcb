-- ===== src/Prelude/Maps.antt =====
-- A JavaScript `Map` with text keys, and a `Set` of texts: a write to a present key stays in place, a
-- write to a new key goes to the end, and iteration is in that order.
use mathlib.Core.Path.{◌≡◌, refl, sym, subst}
use mathlib.Core.Logic.{inl, inr}
use mathlib.Core.Bool.{Bool, true, false, not, ◌||◌}
use mathlib.Core.Option.{Option, none, some}
use mathlib.Core.List.{List, [], ◌∷◌, ◌++◌}
use Prim.Native.String.{String}
use native.Mathlib.Omega.{arith}
use text.Mathlib.Text.{◌==◌ as str_eq}
use text.Mathlib.TextEquality.{eq_iff}
use rector.Prelude.Tests.{if◌then◌else◌, Bool-cases}
use rector.Prelude.Lists.{All, keep_if}

abbrev pub Dict {ℓ} : Type ℓ → Type ℓ
Dict V = List (String × V)

module _ {ℓ} {V : Type ℓ} where
  unfoldable pub lookup : String → Dict V → Option V
  lookup k [] = none
  lookup k ((j, v) ∷ m) = if str_eq j k then some v else lookup k m

  unfoldable pub insert : String → V → Dict V → Dict V
  insert key value [] = (key, value) ∷ []
  insert key value ((held, old) ∷ entries) =
      if str_eq held key then (held, value) ∷ entries else (held, old) ∷ insert key value entries

  unfoldable pub remove : String → Dict V → Dict V
  remove k [] = []
  remove k ((j, w) ∷ m) = let rest = remove k m in if str_eq j k then rest else (j, w) ∷ rest

  pub lookup-insert :
      (key at : String) (value : V) (entries : Dict V)
      → lookup at (insert key value entries)
        ≡ (if str_eq key at then some value else lookup at entries)
  unfolding insert lookup
  lookup-insert key at value [] = refl
  lookup-insert key at value ((held, old) ∷ entries) =
      let rest = lookup-insert key at value entries in
      ground (arith, rest, eq_iff held key, eq_iff held at, eq_iff key at)

  pub lookup-remove :
      (k j : String) (m : Dict V)
      → lookup j (remove k m) ≡ (if str_eq k j then none else lookup j m)
  unfolding lookup remove
  lookup-remove k j [] = ground arith
  lookup-remove k j ((i, w) ∷ m) =
      ground (arith, eq_iff k j, eq_iff i k, eq_iff i j, lookup-remove k j m)

  unfoldable pub has : String → Dict V → Bool
  has k [] = false
  has k ((j, v) ∷ m) = str_eq j k || has k m

  pub lookup-has : (k : String) (m : Dict V) → has k m ≡ false → lookup k m ≡ none
  unfolding lookup has
  lookup-has k [] h = refl
  lookup-has k ((j, v) ∷ m) h = ground (arith, lookup-has k m)

  -- A write to a new key changes nothing that was there.
  pub lookup-insert_new :
      (k j : String) (v : V) {w : V} (m : Dict V)
      → has k m ≡ false
      → lookup j m ≡ some w
      → lookup j (insert k v m) ≡ some w
  lookup-insert_new k j v m h e =
      ground (arith, lookup-insert k j v m, eq_iff k j, lookup-has k m h, e)

-- `Array.prototype.includes` on texts.
unfoldable pub includes : String → List String → Bool
includes k [] = false
includes k (j ∷ xs) = str_eq j k || includes k xs

module _ {ℓ κ} {V : Type ℓ} (P : String × V → Type κ) where
  pub All-insert : (k : String) (v : V) (m : Dict V) → P (k, v) → All P m → All P (insert k v m)
  unfolding insert
  All-insert k v [] p h = (p, tt)
  All-insert k v ((j, w) ∷ m) p h = elim (Bool-cases (str_eq j k)) [
    | inl same ↦ rw same (subst (λ i. P (i, v)) (sym ((eq_iff j k).0 same)) p, h.1)
    | inr other ↦ rw other (h.0, All-insert k v m p h.1)
  ]

  pub All-remove : (k : String) (m : Dict V) → All P m → All P (remove k m)
  unfolding remove
  All-remove k [] h = tt
  All-remove k ((j, w) ∷ m) h = elim (Bool-cases (str_eq j k)) [
    | inl same ↦ rw same (All-remove k m h.1)
    | inr other ↦ rw other (h.0, All-remove k m h.1)
  ]

  pub All-lookup : (k : String) {v : V} (m : Dict V) → All P m → lookup k m ≡ some v → P (k, v)
  unfolding lookup
  All-lookup k {v} [] h e = cc
  All-lookup k {v} ((j, w) ∷ m) h e = elim (Bool-cases (str_eq j k)) [
    | inl same ↦
        let value : w ≡ v = cc (rw same at e) in
        subst (λ i. P (i, v)) ((eq_iff j k).0 same) (subst (λ u. P (j, u)) value h.0)
    | inr other ↦ All-lookup k m h.1 (rw other at e)
  ]

includes-append_left :
    (d : String) (xs ys : List String) → includes d xs ≡ true → includes d (xs ++ ys) ≡ true
unfolding includes
includes-append_left d [] ys h = cc
includes-append_left d (x ∷ xs) ys h = ground (arith, includes-append_left d xs ys)

pub includes-snoc :
    (d x : String) (xs : List String) → includes d xs ≡ true → includes d (xs ++ x ∷ []) ≡ true
includes-snoc d x xs h = includes-append_left d xs (x ∷ []) h

pub includes-snoc_self : (x : String) (xs : List String) → includes x (xs ++ x ∷ []) ≡ true
unfolding includes
includes-snoc_self x [] = ground (arith, eq_iff x x)
includes-snoc_self x (y ∷ ys) = ground (arith, includes-snoc_self x ys)

-- What is left in a set after another element is deleted.
pub includes-keep_if :
    (d id : String) (xs : List String)
    → includes d xs ≡ true
    → str_eq d id ≡ false
    → includes d (keep_if (λ x. not (str_eq x id)) xs) ≡ true
unfolding includes
includes-keep_if d id [] h ne = cc
includes-keep_if d id (x ∷ xs) h ne =
    ground (arith, includes-keep_if d id xs, eq_iff x d, eq_iff x id, eq_iff d id)

-- A statement about the elements of a set, from one about what the set includes.
pub All-includes {ℓ} :
    {P : String → Type ℓ} (xs : List String)
    → ((d : String) → includes d xs ≡ true → P d)
    → All P xs
unfolding includes
All-includes [] f = tt
All-includes (x ∷ xs) f =
    (f x (ground (arith, eq_iff x x)), All-includes xs (λ d h. f d (ground arith)))

pub All-at {ℓ} :
    (P : String → Type ℓ) (d : String) (xs : List String) → All P xs → includes d xs ≡ true → P d
unfolding includes
All-at P d [] h i = cc
All-at P d (x ∷ xs) h i = elim (Bool-cases (str_eq x d)) [
  | inl same ↦ subst P ((eq_iff x d).0 same) h.0
  | inr other ↦ All-at P d xs h.1 (rw other at i)
]
