-- ===== src/Providers/DiscoveryCache/LastWrite.antt =====
-- The cache against the list of the calls made of it (src/providers/discovery/cache.ts).
use rector.Prelude.{
  ℕ, ◌+◌, ◌≤◌, true, String, Option, none, some, List, [], ◌∷◌, lookup, lookup-insert,
  lookup-remove, Option-cases, Bool-cases, inl, inr, ◌≡◌, refl, sym, ap, ◌∙◌, arith, if◌then◌else◌,
  leb, leb→le, str_eq, eq_iff,
}
use rector.Providers.DiscoveryCache.{
  DiscoveryResult, found, refused, DiscoveryCacheEntry, DiscoveryCache, ttl_for_result, get, set,
  invalidate,
}

pub data CacheCall {ℓ} (Candidate Failure : Type ℓ) : Type ℓ where
  read : String → ℕ → CacheCall Candidate Failure
  write : String → DiscoveryResult Candidate Failure → ℕ → CacheCall Candidate Failure
  evict : String → ℕ → CacheCall Candidate Failure

module _ {ℓ} {Candidate Failure : Type ℓ} where
  abbrev pub time_of : CacheCall Candidate Failure → ℕ
  time_of (read id now) = now
  time_of (write id result now) = now
  time_of (evict id now) = now

  -- The cache after calls, the latest first.
  unfoldable pub after : List (CacheCall Candidate Failure) → DiscoveryCache Candidate Failure
  after [] = []
  after (read id now ∷ calls) = (get id now (after calls)).1
  after (write id result now ∷ calls) = set id result now (after calls)
  after (evict id now ∷ calls) = invalidate id (after calls)

  -- The time does not go back, and is now at least `now`.
  abbrev pub Ordered : ℕ → List (CacheCall Candidate Failure) → Type 0
  Ordered now [] = Unit
  Ordered now (c ∷ calls) = (time_of c ≤ now) × Ordered (time_of c) calls

  -- How long a result serves: 5 minutes if it has candidates, 30 seconds if it has none or is an error.
  abbrev pub lifetime : DiscoveryResult Candidate Failure → ℕ
  lifetime (found provider (c ∷ cs) refreshed) = 300000
  lifetime (found provider [] refreshed) = 30000
  lifetime (refused provider failure refreshed) = 30000

  -- What the latest write of a provider that nothing evicted since leaves valid.
  unfoldable pub last_write :
      String → ℕ → List (CacheCall Candidate Failure) → Option (DiscoveryResult Candidate Failure)
  last_write id now [] = none
  last_write id now (read j at ∷ calls) = last_write id now calls
  last_write id now (write j result at ∷ calls) =
      let earlier = last_write id now calls in
      if str_eq j id then if leb (at + lifetime result) now then none else some result else earlier
  last_write id now (evict j at ∷ calls) =
      let earlier = last_write id now calls in if str_eq j id then none else earlier

  abbrev valid :
      ℕ
      → Option (DiscoveryCacheEntry Candidate Failure)
      → Option (DiscoveryResult Candidate Failure)
  valid now none = none
  valid now (some entry) = if leb entry.expires_at now then none else some entry.result

  -- An entry as `set` makes it is valid for the lifetime of its result.
  valid-written :
      (now at : ℕ) (result : DiscoveryResult Candidate Failure)
      → valid now (some (record { result = result; expires_at = at + ttl_for_result result }))
        ≡ (if leb (at + lifetime result) now then none else some result)
  valid-written now at (found provider (c ∷ cs) refreshed) = refl
  valid-written now at (found provider [] refreshed) = refl
  valid-written now at (refused provider failure refreshed) = refl

  get-valid :
      (id : String) (now : ℕ) (cache : DiscoveryCache Candidate Failure)
      → (get id now cache).0 ≡ valid now (lookup id cache)
  get-valid id now cache = elim (Option-cases (lookup id cache)) [
    | inl gone ↦ rw gone refl
    | inr (entry, there) ↦ rw there (ground arith)
  ]

  valid-get :
      (id j : String) (now at : ℕ) (cache : DiscoveryCache Candidate Failure)
      → at ≤ now
      → valid now (lookup id (get j at cache).1) ≡ valid now (lookup id cache)
  valid-get id j now at cache h = elim (Option-cases (lookup j cache)) [
    | inl gone ↦ rw gone refl
    | inr (entry, there) ↦ elim (Bool-cases (leb entry.expires_at at)) [
      | inl expired ↦
          rw (there, expired, lookup-remove j id cache)
            (elim (Bool-cases (str_eq j id)) [
              | inl same ↦
                  let held : lookup id cache ≡ some entry =
                    ap (λ k. lookup k cache) (sym ((eq_iff j id).0 same)) ∙ there in
                  let past : leb entry.expires_at now ≡ true =
                    ground (arith, leb→le entry.expires_at at expired, h) in
                  rw (same, held, past) refl
              | inr other ↦ rw other refl
            ])
      | inr fresh ↦ rw (there, fresh) refl
    ]
  ]

  Ordered-later :
      (at now : ℕ) (calls : List (CacheCall Candidate Failure))
      → at ≤ now
      → Ordered at calls
      → Ordered now calls
  Ordered-later at now [] h o = tt
  Ordered-later at now (c ∷ calls) h o = (omega (arith, h, o.0), o.1)

  valid-after :
      (id : String) (now : ℕ) (calls : List (CacheCall Candidate Failure))
      → Ordered now calls
      → valid now (lookup id (after calls)) ≡ last_write id now calls
  unfolding after last_write lookup
  valid-after id now [] o = refl
  valid-after id now (read j at ∷ calls) o =
      valid-get id j now at (after calls) o.0
      ∙ valid-after id now calls (Ordered-later at now calls o.0 o.1)
  valid-after id now (write j result at ∷ calls) o =
      let ih = valid-after id now calls (Ordered-later at now calls o.0 o.1) in
      let entry : DiscoveryCacheEntry Candidate Failure = record {
        result = result;
        expires_at = at + ttl_for_result result;
      } in
      rw (lookup-insert j id entry (after calls)) (elim (Bool-cases (str_eq j id)) [
        | inl same ↦ rw same (valid-written now at result)
        | inr other ↦ rw other ih
      ])
  valid-after id now (evict j at ∷ calls) o =
      let ih = valid-after id now calls (Ordered-later at now calls o.0 o.1) in
      rw (lookup-remove j id (after calls))
        (elim (Bool-cases (str_eq j id)) [ inl same ↦ rw same refl | inr other ↦ rw other ih ])

  -- Whatever was read, written and evicted before, with a clock that does not go back, a read returns
  -- exactly the latest write for its provider, if nothing evicted it since and its time to live is not
  -- over: 5 minutes for a result with candidates, 30 seconds for an error or an empty result.
  pub get-last_write :
      (id : String) (now : ℕ) (calls : List (CacheCall Candidate Failure))
      → Ordered now calls
      → (get id now (after calls)).0 ≡ last_write id now calls
  get-last_write id now calls o = get-valid id now (after calls) ∙ valid-after id now calls o
