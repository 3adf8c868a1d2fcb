-- ===== src/Security/RateLimiter/Tests.antt =====
-- A policy of two requests a window, and the theorems on it.
use rector.Prelude.{true, [], ◌∷◌, List, Num, min, ◌≡◌, refl, arith, lookup}
use rector.Security.RateLimiter.Keys.{
  bucket_key, split_bucket_key, is_plain, split_bucket_key-bucket_key,
}
use rector.Security.RateLimiter.Limiter.{
  RateLimitRule, RateLimitPolicy, rate_limit_rule_for, normalize_now, sweep,
}
use rector.Security.RateLimiter.Window.{Request, requested, admitted, admitted-window}

abbrev two_a_minute : RateLimitRule
two_a_minute = record { window_ms = 60000; max_requests = 2; fail_closed = true }

abbrev policy : RateLimitPolicy
policy = record {
  fail_closed = true;
  routes = ("chat", two_a_minute) ∷ [];
  general = record { window_ms = 60000; max_requests = 10; fail_closed = true };
}

abbrev chat_at : Num → Request
chat_at now = record { key = "alice"; route = "chat"; now = now; clock = 5 }

abbrev other_chat : Request
other_chat = record { key = "bob"; route = "chat"; now = Num.fin 9000000; clock = 5 }

-- Three requests of one user within a minute, and one of another.
abbrev later : List Request
later = chat_at (Num.fin 8000000) ∷ other_chat ∷ chat_at (Num.fin 10000000) ∷ []

admitted-window_example :
    admitted policy "alice" "chat" (chat_at (Num.fin 7000000) ∷ later) []
    ≡ min (requested "alice" "chat" (chat_at (Num.fin 7000000) ∷ later)) 2
unfolding rate_limit_rule_for lookup is_plain normalize_now sweep
admitted-window_example =
    admitted-window policy (chat_at (Num.fin 7000000)) later [] refl (omega arith) refl
      ((refl, omega arith), ((refl, omega arith), ((refl, omega arith), tt)))

split_bucket_key-bucket_key_example :
    split_bucket_key (bucket_key "alice" "chat") ≡ ("chat", "alice")
unfolding is_plain
split_bucket_key-bucket_key_example = split_bucket_key-bucket_key "alice" "chat" refl
