-- ===== src/Providers/DiscoveryCache/Tests.antt =====
-- A run of the cache (src/providers/discovery/cache.ts).
use rector.Prelude.{String, none, some, List, [], ◌∷◌, ◌≡◌, refl, arith}
use rector.Providers.DiscoveryCache.{found, refused, get}
use rector.Providers.DiscoveryCache.LastWrite.{
  CacheCall, read, write, after, Ordered, last_write, get-last_write,
}

-- The latest first: a catalog for one provider, and later a failure for another.
abbrev calls : List (CacheCall String String)
calls =
    read "openai" 60000
    ∷ write "azure" (refused "azure" "timeout" "t1") 20000
    ∷ write "openai" (found "openai" ("gpt" ∷ []) "t0") 10000
    ∷ []

calls-Ordered : Ordered 70000 calls
calls-Ordered = (omega arith, (omega arith, (omega arith, tt)))

get-last_write_example : (get "openai" 70000 (after calls)).0 ≡ last_write "openai" 70000 calls
get-last_write_example = get-last_write "openai" 70000 calls calls-Ordered

failure_forgotten : last_write "azure" 50000 calls ≡ none
unfolding last_write
failure_forgotten = refl

catalog_kept : last_write "openai" 70000 calls ≡ some (found "openai" ("gpt" ∷ []) "t0")
unfolding last_write
catalog_kept = refl
