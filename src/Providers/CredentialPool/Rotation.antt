-- ===== src/Providers/CredentialPool/Rotation.antt =====
-- Which credentials the pool gives out.
use rector.Prelude.{
  ℕ, zero, suc, ◌<◌, Bool, true, false, String, none, some, List, [], ◌∷◌, length, keep_if, any,
  All, str_eq, ◌≡◌, ◌≢◌, refl, subst, inl, inr, arith, Bool-cases, Option-cases, ◌⊎◌,
}
use rector.Providers.CredentialPool.{
  CredentialPoolEntry, CredentialPool, is_available, available_entries, nth, pick, acquire,
}

keep_if-All :
    (p : CredentialPoolEntry → Bool) (xs : List CredentialPoolEntry)
    → All (λ x. p x ≡ true) (keep_if p xs)
keep_if-All p [] = tt
keep_if-All p (x ∷ xs) = elim (Bool-cases (p x)) [
  | inl yes' ↦ rw yes' (yes', keep_if-All p xs)
  | inr no' ↦ rw no' (keep_if-All p xs)
]

module _ {ℓ} (P : CredentialPoolEntry → Type ℓ) where
  All-nth :
      (n : ℕ) (xs : List CredentialPoolEntry) {e : CredentialPoolEntry}
      → All P xs
      → nth n xs ≡ some e
      → P e
  All-nth n [] h i = absurd (cc i)
  All-nth zero (x ∷ xs) {e} h i = let same : x ≡ e = cc i in subst P same h.0
  All-nth (suc n) (x ∷ xs) h i = All-nth n xs h.1 i

  All-pick :
      (id : String) (pool : CredentialPool) (xs : List CredentialPoolEntry)
      {e : CredentialPoolEntry}
      → All P xs
      → (pick id pool xs).0 ≡ some e
      → P e
  All-pick id pool [] h i = absurd (cc i)
  All-pick id pool (c ∷ cs) h i = All-nth _ (c ∷ cs) h i

nth-in_range : (n : ℕ) (xs : List CredentialPoolEntry) → n < length xs → nth n xs ≢ none
nth-in_range n [] h e = omega arith
nth-in_range zero (x ∷ xs) h e = cc
nth-in_range (suc n) (x ∷ xs) h e = nth-in_range n xs (omega arith) e

pick-none :
    (id : String) (pool : CredentialPool) (xs : List CredentialPoolEntry)
    → (pick id pool xs).0 ≡ none
    → xs ≡ []
pick-none id pool [] h = refl
pick-none id pool (c ∷ cs) h = absurd (nth-in_range _ (c ∷ cs) (omega arith) h)

keep_if-nil :
    (p : CredentialPoolEntry → Bool) (xs : List CredentialPoolEntry)
    → keep_if p xs ≡ []
    → any p xs ≡ false
keep_if-nil p [] h = refl
keep_if-nil p (x ∷ xs) h = elim (Bool-cases (p x)) [
  | inl yes' ↦ cc (rw yes' at h)
  | inr no' ↦ rw no' (keep_if-nil p xs (rw no' at h))
]

-- The pool gives out a credential of the provider asked for that is not cooling down, and gives none
-- out only if it has none such.
pub acquire-available :
    (id : String) (now : ℕ) (pool : CredentialPool)
    → ((e : CredentialPoolEntry) × ((acquire id now pool).0 ≡ some e)
        × (is_available id now e ≡ true))
      ⊎ (((acquire id now pool).0 ≡ none) × (any (is_available id now) pool.entries ≡ false))
acquire-available id now pool = elim (Option-cases (acquire id now pool).0) [
  | inl none' ↦ inr (
    none',
    keep_if-nil (is_available id now) pool.entries
        (pick-none id pool (available_entries id now pool) none'),
  )
  | inr (e, found) ↦ inl (
    e,
    found,
    All-pick (λ x. is_available id now x ≡ true) id pool (available_entries id now pool)
        (keep_if-All (is_available id now) pool.entries) found,
  )
]

-- An entry that is cooled down until later is not available, if it has the secret.
Spares : String → String → ℕ → CredentialPoolEntry → Type 0
Spares id secret now e = is_available id now e ≡ true → str_eq e.secret_ref secret ≡ false
