-- ===== src/Security/RateLimiter/Keys.antt =====
-- The keys of the buckets of the limiter (src/security/rateLimiter.ts): a route and a key around a NUL.
use Prim.Native.Char.{Char, code}
use Prim.Native.String.{[], ◌∷◌, ◌++◌ as str_append}
use text.Mathlib.TextLemmas.{nil-append, cons-append}
use rector.Prelude.{
  Bool, true, false, String, Option, none, some, if◌then◌else◌, ◌==◌, ◌≡◌, refl, arith,
}

unfoldable pub bucket_key : String → String → String
bucket_key key route = str_append route (str_append "\0" key)

abbrev pub prefix_char : Char → Option (String × String) → Option (String × String)
prefix_char c none = none
prefix_char c (some (s, t)) = some (c ∷ s, t)

-- The text before the first NUL and the text after it.
unfoldable pub split_at_nul : String → Option (String × String)
split_at_nul [] = none
split_at_nul (c ∷ s) =
    let rest = split_at_nul s in if code c == 0 then some ([], s) else prefix_char c rest

abbrev or_whole : String → Option (String × String) → String × String
or_whole value none = ("general", value)
or_whole value (some parts) = parts

-- The route and the key of a bucket.
unfoldable pub split_bucket_key : String → String × String
split_bucket_key value = or_whole value (split_at_nul value)

-- A route without a NUL.
unfoldable pub is_plain : String → Bool
is_plain [] = true
is_plain (c ∷ s) = if code c == 0 then false else is_plain s

split_at_nul-append :
    (s t : String)
    → is_plain s ≡ true
    → split_at_nul (str_append s (str_append "\0" t)) ≡ some (s, t)
unfolding is_plain split_at_nul
split_at_nul-append [] t h = rw (nil-append (str_append "\0" t), cons-append, nil-append t) refl
split_at_nul-append (c ∷ s) t h =
    rw (cons-append c s (str_append "\0" t)) (ground (arith, split_at_nul-append s t))

-- A bucket's route and key are read back from the text that was built of them, if the route has no NUL.
pub split_bucket_key-bucket_key :
    (key route : String)
    → is_plain route ≡ true
    → split_bucket_key (bucket_key key route) ≡ (route, key)
unfolding split_bucket_key bucket_key
split_bucket_key-bucket_key key route h = rw (split_at_nul-append route key h)
