-- ===== src/Providers/DiscoveryCache.antt =====
-- The cache of discovery results (src/providers/discovery/cache.ts). Candidates and errors are carried
-- along unread, so their types are arguments.
pub mod LastWrite
mod Tests
use rector.Prelude.{
  ℕ, ◌+◌, Bool, true, false, String, Option, none, some, List, [], ◌∷◌, Dict, lookup, insert,
  remove, if◌then◌else◌, ltb, leb, str_eq,
}

abbrev pub success_ttl_ms : ℕ
success_ttl_ms = 300000

abbrev pub error_ttl_ms : ℕ
error_ttl_ms = 30000

pub data DiscoveryResult {ℓ} (Candidate Failure : Type ℓ) : Type ℓ where
  found : String → List Candidate → String → DiscoveryResult Candidate Failure
  refused : String → Failure → String → DiscoveryResult Candidate Failure

module _ {ℓ} {Candidate Failure : Type ℓ} where
  abbrev pub is_error_or_empty : DiscoveryResult Candidate Failure → Bool
  is_error_or_empty (found provider [] refreshed) = true
  is_error_or_empty (found provider (c ∷ cs) refreshed) = false
  is_error_or_empty (refused provider failure refreshed) = true

  abbrev pub ttl_for_result : DiscoveryResult Candidate Failure → ℕ
  ttl_for_result result = if is_error_or_empty result then error_ttl_ms else success_ttl_ms

pub record DiscoveryCacheEntry {ℓ} (Candidate Failure : Type ℓ) : Type ℓ where
  pub result : DiscoveryResult Candidate Failure
  pub expires_at : ℕ

abbrev pub DiscoveryCache {ℓ} : Type ℓ → Type ℓ → Type ℓ
DiscoveryCache Candidate Failure = Dict (DiscoveryCacheEntry Candidate Failure)

module _ {ℓ} {Candidate Failure : Type ℓ} where
  abbrev pub read_entry :
      String
      → ℕ
      → DiscoveryCache Candidate Failure
      → Option (DiscoveryCacheEntry Candidate Failure)
      → Option (DiscoveryResult Candidate Failure) × DiscoveryCache Candidate Failure
  read_entry provider_id now entries none = (none, entries)
  read_entry provider_id now entries (some entry) =
      if leb entry.expires_at now
      then (none, remove provider_id entries)
      else (some entry.result, entries)

  abbrev pub get :
      String
      → ℕ
      → DiscoveryCache Candidate Failure
      → Option (DiscoveryResult Candidate Failure) × DiscoveryCache Candidate Failure
  get provider_id now entries = read_entry provider_id now entries (lookup provider_id entries)

  abbrev pub set :
      String
      → DiscoveryResult Candidate Failure
      → ℕ
      → DiscoveryCache Candidate Failure
      → DiscoveryCache Candidate Failure
  set provider_id result now entries =
      insert provider_id (record { result = result; expires_at = now + ttl_for_result result })
        entries

  abbrev pub invalidate :
      String → DiscoveryCache Candidate Failure → DiscoveryCache Candidate Failure
  invalidate provider_id entries = remove provider_id entries
