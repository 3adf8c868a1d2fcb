-- ===== src/Security/RateLimiter/Window.antt =====
-- What a window of the limiter admits.
use rector.Prelude.{
  ℕ, suc, ◌+◌, ◌-◌, ◌≤◌, ◌<◌, min, Bool, true, false, ◌&&◌, String, Option, none, some, List, [],
  ◌∷◌, lookup, insert, lookup-insert, Num, leb, ltb, leb→le, if◌then◌else◌, str_eq, ◌≡◌, ◌≢◌, refl,
  sym, ap, ◌∙◌, ◌⊎◌, inl, inr, arith, eq_iff, Bool-cases, All,
}
use rector.Security.RateLimiter.Keys.{
  bucket_key, is_plain, split_bucket_key, split_bucket_key-bucket_key,
}
use rector.Security.RateLimiter.Limiter.{
  RateLimitRule, RateLimitPolicy, RateLimitDecision, Bucket, Buckets, rate_limit_rule_for,
  normalize_now, sweep, active_bucket, commit_bucket, commit,
}

-- A request, with the reading of the clock that it would fall back on.
pub record Request : Type 0 where
  pub key : String
  pub route : String
  pub now : Num
  pub clock : ℕ

abbrev pub time_of : Request → ℕ
time_of q = normalize_now q.clock q.now

abbrev pub is_of : String → String → Request → Bool
is_of key route q = str_eq q.key key && str_eq q.route route

abbrev pub commit_request : RateLimitPolicy → Request → Buckets → RateLimitDecision × Buckets
commit_request policy q m = commit policy q.clock q.key q.route q.now m

-- How many of the requests are of a key and a route.
abbrev pub requested : String → String → List Request → ℕ
requested key route [] = 0
requested key route (q ∷ qs) =
    let rest = requested key route qs in if is_of key route q then suc rest else rest

-- How many of these the limiter allows when all of them are committed in turn.
abbrev pub admitted : RateLimitPolicy → String → String → List Request → Buckets → ℕ
admitted policy key route [] m = 0
admitted policy key route (q ∷ qs) m =
    let rest = admitted policy key route qs (commit_request policy q m).1 in
    if is_of key route q && (commit_request policy q m).0.allowed then suc rest else rest

bucket_key-inj :
    (key route : String) (q : Request)
    → is_plain route ≡ true
    → is_plain q.route ≡ true
    → bucket_key q.key q.route ≡ bucket_key key route
    → is_of key route q ≡ true
bucket_key-inj key route q p p' h =
    let same : Path (String × String) (q.route, q.key) (route, key) =
      sym (split_bucket_key-bucket_key q.key q.route p')
      ∙ (ap split_bucket_key h ∙ split_bucket_key-bucket_key key route p) in
    let k : q.key ≡ key = ap (λ e. e.1) same in
    let r : q.route ≡ route = ap (λ e. e.0) same in
    ground (arith, eq_iff q.key key, eq_iff q.route route)

lookup-sweep :
    (k : String) (t : ℕ) (m : Buckets) {b : Bucket}
    → lookup k m ≡ some b
    → t < b.reset_at
    → lookup k (sweep t m) ≡ some b
unfolding lookup sweep
lookup-sweep k t [] h l = h
lookup-sweep k t ((j, c) ∷ m) {b} h l = elim (Bool-cases (str_eq j k)) [
  | inl same ↦
      let value : c ≡ b = cc (rw (same, lookup) at h) in
      let opened : leb c.reset_at t ≡ false = rw value (ground arith) in
      rw (opened, lookup, same) (ap some value)
  | inr other ↦
      let rest = lookup-sweep k t m (rw (other, lookup) at h) l in
      elim (Bool-cases (leb c.reset_at t)) [
        | inl closed ↦ rw closed rest
        | inr opened ↦ rw (opened, lookup, other) rest
      ]
]

different : (s t : String) → s ≢ t → str_eq s t ≡ false
different s t ne = ground (arith, eq_iff s t)

module _ (policy : RateLimitPolicy) where
  commit_bucket-other :
      (rule : RateLimitRule) (k : String) (q : Request) (m : Buckets) (open' : Option Bucket)
      {b : Bucket}
      → bucket_key q.key q.route ≢ k
      → lookup k m ≡ some b
      → lookup k (commit_bucket q.key q.route rule (time_of q) m open').1 ≡ some b
  commit_bucket-other rule k q m none {b} ne h =
      rw (lookup-insert, different (bucket_key q.key q.route) k ne) h
  commit_bucket-other rule k q m (some c) {b} ne h =
      elim (Bool-cases (leb rule.max_requests c.count)) [
        | inl full ↦ rw full h
        | inr room ↦ rw (room, lookup-insert, different (bucket_key q.key q.route) k ne) h
      ]

  commit-other :
      (k : String) (q : Request) (m : Buckets) {b : Bucket}
      → bucket_key q.key q.route ≢ k
      → lookup k m ≡ some b
      → time_of q < b.reset_at
      → lookup k (commit_request policy q m).1 ≡ some b
  unfolding commit
  commit-other k q m {b} ne h l =
      let kept : lookup k (sweep (time_of q) m) ≡ some b = lookup-sweep k (time_of q) m h l in
      let rule = rate_limit_rule_for policy q.route in
      let swept = sweep (time_of q) m in
      elim (Bool-cases (leb rule.max_requests 0)) [
        | inl off ↦ rw off h
        | inr on ↦ rw on (
            commit_bucket-other rule k q swept
              (active_bucket (bucket_key q.key q.route) (time_of q) swept) ne kept)
      ]

  -- What a commit to an open bucket does.
  abbrev Step : RateLimitRule → Bucket → String → RateLimitDecision × Buckets → Type 0
  Step rule b k r =
      ((b.count < rule.max_requests)
        × (r.0.allowed ≡ true)
        × (lookup k r.1 ≡ some (record { reset_at = b.reset_at; count = b.count + 1 })))
      ⊎ ((rule.max_requests ≤ b.count) × (r.0.allowed ≡ false) × (lookup k r.1 ≡ some b))

  commit-Step :
      (q : Request) (m : Buckets) {b : Bucket}
      → lookup (bucket_key q.key q.route) m ≡ some b
      → time_of q < b.reset_at
      → 0 < (rate_limit_rule_for policy q.route).max_requests
      → Step
          (rate_limit_rule_for policy q.route)
          b
          (bucket_key q.key q.route)
          (commit_request policy q m)
  unfolding commit
  commit-Step q m {b} h l pos =
      let kept : lookup (bucket_key q.key q.route) (sweep (time_of q) m) ≡ some b =
        lookup-sweep (bucket_key q.key q.route) (time_of q) m h l in
      let self : str_eq (bucket_key q.key q.route) (bucket_key q.key q.route) ≡ true =
        (eq_iff (bucket_key q.key q.route) (bucket_key q.key q.route)).1 refl in
      let written : lookup (bucket_key q.key q.route) (
            insert (bucket_key q.key q.route)
              (record { reset_at = b.reset_at; count = b.count + 1 }) (sweep (time_of q) m))
          ≡ some (record { reset_at = b.reset_at; count = b.count + 1 }) =
        rw (lookup-insert, self) refl in
      let fresh : leb (rate_limit_rule_for policy q.route).max_requests 0 ≡ false = ground arith in
      let opened : ltb (time_of q) b.reset_at ≡ true = ground arith in
      rw (fresh, kept, opened)
        (elim (Bool-cases (leb (rate_limit_rule_for policy q.route).max_requests b.count)) [
          | inl full ↦ rw full (
              inr
                (leb→le (rate_limit_rule_for policy q.route).max_requests b.count full, refl, kept))
          | inr room ↦ rw room (inl (ground arith, refl, written))
        ])

  abbrev pub InWindow : ℕ → Request → Type 0
  InWindow end' q = (is_plain q.route ≡ true) × (time_of q < end')

  -- The same step, for a request of the key and the route.
  commit_of-Step :
      (key route : String) (q : Request) (m : Buckets) {b : Bucket}
      → is_of key route q ≡ true
      → lookup (bucket_key key route) m ≡ some b
      → time_of q < b.reset_at
      → 0 < (rate_limit_rule_for policy route).max_requests
      → Step (rate_limit_rule_for policy route) b (bucket_key key route) (commit_request policy q m)
  commit_of-Step key route q m {b} of h l pos =
      let k : q.key ≡ key = (eq_iff q.key key).0 (ground arith) in
      let r : q.route ≡ route = (eq_iff q.route route).0 (ground arith) in
      rw (sym k, sym r) (commit-Step q m (rw (k, r) h) l (rw r pos))

  not_of :
      (key route : String) (q : Request)
      → is_plain route ≡ true
      → is_plain q.route ≡ true
      → is_of key route q ≡ false
      → bucket_key q.key q.route ≢ bucket_key key route
  not_of key route q p p' no' same =
      let yes' : is_of key route q ≡ true = bucket_key-inj key route q p p' same in cc

  admitted-open :
      (key route : String) (qs : List Request) (m : Buckets) {b : Bucket}
      → is_plain route ≡ true
      → 0 < (rate_limit_rule_for policy route).max_requests
      → lookup (bucket_key key route) m ≡ some b
      → All (InWindow b.reset_at) qs
      → admitted policy key route qs m
        ≡ min (requested key route qs) ((rate_limit_rule_for policy route).max_requests - b.count)
  admitted-open key route [] m p pos h w = omega arith
  admitted-open key route (q ∷ qs) m {b} p pos h w = elim (Bool-cases (is_of key route q)) [
    | inl of ↦ elim (commit_of-Step key route q m of h w.0.1 pos) [
      | inl (room, yes', next) ↦
          let rest = admitted-open key route qs (commit_request policy q m).1 p pos next w.1 in
          rw (of, yes') (omega (arith, rest))
      | inr (full, no', kept) ↦
          let rest = admitted-open key route qs (commit_request policy q m).1 p pos kept w.1 in
          rw (of, no') (omega (arith, rest))
    ]
    | inr other ↦
        let kept =
          commit-other (bucket_key key route) q m (not_of key route q p w.0.0 other) h w.0.1 in
        rw other (admitted-open key route qs (commit_request policy q m).1 p pos kept w.1)
  ]

  -- The first commit of a window.
  commit-opens :
      (q : Request) (m : Buckets)
      → 0 < (rate_limit_rule_for policy q.route).max_requests
      → active_bucket (bucket_key q.key q.route) (time_of q) (sweep (time_of q) m) ≡ none
      → ((commit_request policy q m).0.allowed ≡ true)
        × (lookup (bucket_key q.key q.route) (commit_request policy q m).1
            ≡ some (record {
              reset_at = time_of q + (rate_limit_rule_for policy q.route).window_ms;
              count = 1;
            }))
  unfolding commit
  commit-opens q m pos closed =
      let on : leb (rate_limit_rule_for policy q.route).max_requests 0 ≡ false = ground arith in
      let self = (eq_iff (bucket_key q.key q.route) (bucket_key q.key q.route)).1 refl in
      rw (on, closed) (refl, rw (lookup-insert, self) refl)

  -- From a request that finds no open window for its key and route up to the end of the window that
  -- it opens, the limiter allows of the requests of that key and route exactly the smaller of their
  -- number and the rule's maximum, whatever the requests of others in between, for a rule with a
  -- maximum above 0 and routes without a NUL.
  pub admitted-window :
      (q : Request) (qs : List Request) (m : Buckets)
      → is_plain q.route ≡ true
      → 0 < (rate_limit_rule_for policy q.route).max_requests
      → active_bucket (bucket_key q.key q.route) (time_of q) (sweep (time_of q) m) ≡ none
      → All (InWindow (time_of q + (rate_limit_rule_for policy q.route).window_ms)) qs
      → admitted policy q.key q.route (q ∷ qs) m
        ≡ min (requested q.key q.route (q ∷ qs)) (rate_limit_rule_for policy q.route).max_requests
  admitted-window q qs m p pos closed w =
      let first = commit-opens q m pos closed in
      let rest = admitted-open q.key q.route qs (commit_request policy q m).1 p pos first.1 w in
      let self : is_of q.key q.route q ≡ true =
        ground (arith, eq_iff q.key q.key, eq_iff q.route q.route) in
      rw (self, first.0) (omega (arith, rest))
