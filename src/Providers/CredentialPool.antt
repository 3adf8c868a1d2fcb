-- ===== src/Providers/CredentialPool.antt =====
-- The pool of credentials (src/providers/credentialPool.ts). A cooldown is its time in milliseconds: the
-- schema admits date texts only, so the branch for an unreadable date is not there.
pub mod Rotation
mod Tests
use rector.Prelude.{
  ℕ, zero, suc, ◌+◌, ◌%◌, Bool, true, false, ◌&&◌, String, Option, none, some, List, [], ◌∷◌, map,
  Dict, lookup, insert, remove, length, keep_if, if◌then◌else◌, leb, str_eq,
}

-- What the source knows of a provider object: its metadata's id and models by route.
pub record LlmProvider : Type 0 where
  pub id : String
  pub models : Dict String

pub record CredentialPoolEntry : Type 0 where
  pub provider_id : String
  pub secret_ref : String
  pub label : Option String
  pub cooldown_until : Option ℕ
  pub provider : Option LlmProvider

pub record CredentialPool : Type 0 where
  pub entries : List CredentialPoolEntry
  pub cursor_by_provider : Dict ℕ

abbrev pub new_pool : List CredentialPoolEntry → CredentialPool
new_pool entries = record { entries = entries; cursor_by_provider = [] }

abbrev pub is_cool : ℕ → Option ℕ → Bool
is_cool now none = true
is_cool now (some until) = leb until now

abbrev pub is_available : String → ℕ → CredentialPoolEntry → Bool
is_available provider_id now entry =
    str_eq entry.provider_id provider_id && is_cool now entry.cooldown_until

abbrev pub available_entries : String → ℕ → CredentialPool → List CredentialPoolEntry
available_entries provider_id now pool = keep_if (is_available provider_id now) pool.entries

abbrev or_zero : Option ℕ → ℕ
or_zero none = 0
or_zero (some n) = n

abbrev pub cursor_of : String → CredentialPool → ℕ
cursor_of provider_id pool = or_zero (lookup provider_id pool.cursor_by_provider)

-- The element at a position, `xs[n]`.
abbrev pub nth : ℕ → List CredentialPoolEntry → Option CredentialPoolEntry
nth n [] = none
nth zero (x ∷ xs) = some x
nth (suc n) (x ∷ xs) = nth n xs

abbrev pub pick :
    String → CredentialPool → List CredentialPoolEntry → Option CredentialPoolEntry × CredentialPool
pick provider_id pool [] = (none, pool)
pick provider_id pool (c ∷ cs) =
    let cursor = cursor_of provider_id pool in
    (
      nth (cursor % length (c ∷ cs)) (c ∷ cs),
      record pool {
        cursor_by_provider =
            insert provider_id ((cursor + 1) % length (c ∷ cs)) pool.cursor_by_provider;
      },
    )

abbrev pub acquire : String → ℕ → CredentialPool → Option CredentialPoolEntry × CredentialPool
acquire provider_id now pool = pick provider_id pool (available_entries provider_id now pool)

abbrev pub cool_entry : String → String → ℕ → CredentialPoolEntry → CredentialPoolEntry
cool_entry provider_id secret_ref until entry =
    if str_eq entry.provider_id provider_id && str_eq entry.secret_ref secret_ref
    then record entry { cooldown_until = some until }
    else entry

abbrev pub mark_cooldown : String → String → ℕ → CredentialPool → CredentialPool
mark_cooldown provider_id secret_ref until pool = record pool {
  entries = map (cool_entry provider_id secret_ref until) pool.entries;
}

abbrev reset_entry : String → CredentialPoolEntry → CredentialPoolEntry
reset_entry provider_id entry =
    if str_eq entry.provider_id provider_id then record entry { cooldown_until = none } else entry

abbrev pub reset : String → CredentialPool → CredentialPool
reset provider_id pool = record {
  entries = map (reset_entry provider_id) pool.entries;
  cursor_by_provider = remove provider_id pool.cursor_by_provider;
}
