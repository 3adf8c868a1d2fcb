-- ===== src/Providers/CredentialPool/Tests.antt =====
-- A pool of two credentials, and the theorems on it.
use rector.Prelude.{String, Option, none, [], ◌∷◌}
use rector.Providers.CredentialPool.{
  CredentialPoolEntry, CredentialPool, new_pool, acquire, mark_cooldown,
}

abbrev key_of : String → CredentialPoolEntry
key_of secret_ref = record {
  provider_id = "acme";
  secret_ref = secret_ref;
  label = none;
  cooldown_until = none;
  provider = none;
}

abbrev two_keys : CredentialPool
two_keys = new_pool (key_of "first" ∷ key_of "second" ∷ [])

abbrev given : Option CredentialPoolEntry
given = (acquire "acme" 10 (mark_cooldown "acme" "first" 60 two_keys)).0
