-- ===== src/Modules/Registry/Signatures.antt =====
-- Which modules boot, and which stay enabled.
use rector.Prelude.{
  Bool, true, false, String, Option, none, some, List, [], ◌∷◌, lookup, insert, has, keep_if,
  lookup-insert, lookup-has, All, All-insert, All-lookup, str_eq, eq_iff, ◌≡◌, refl, sym, inl, inr,
  arith, Bool-cases, Option-cases,
}
use rector.Modules.Registry.{
  RectorModule, RegisteredModule, ModuleRegistry, Registered, ok, err, OrchestratorMode,
  Verification, verify_module_signature, register, register_checked, signature_of, enable, disable,
  is_core, may_boot, invoke_hook, invoke_on_boot,
}

-- The calls that change the registry.
pub data RegistryCall : Type 0 where
  add : RectorModule → RegistryCall
  switch_on switch_off : String → RegistryCall

abbrev pub settle : ModuleRegistry → Registered → ModuleRegistry
settle r (ok r') = r'
settle r (err e) = r

abbrev pub perform : Verification → RegistryCall → ModuleRegistry → ModuleRegistry
perform v (add m) r = settle r (register v m r)
perform v (switch_on id) r = settle r (enable id r)
perform v (switch_off id) r = settle r (disable id r)

abbrev pub perform_all : Verification → List RegistryCall → ModuleRegistry → ModuleRegistry
perform_all v [] r = r
perform_all v (c ∷ cs) r = perform_all v cs (perform v c r)

module _ (v : Verification) (key : String) where
  -- A signature of the module that the key verifies.
  abbrev pub IsSigned : RegisteredModule → Type 0
  IsSigned entry =
      (s : String) × (entry.module'.manifest.signature ≡ some s)
      × (verify_module_signature v entry.module'.manifest s key ≡ true)

  abbrev Honest : String × RegisteredModule → Type 0
  Honest e = (e.1.signature_verified ≡ true) → IsSigned e.1

  signature_of-some : (o : Option String) {s : String} → signature_of o ≡ some s → o ≡ some s
  signature_of-some none h = cc
  signature_of-some (some t) h = ground arith

  register-Honest :
      (k : Option String) (s : Option String) (m : RectorModule) (r : ModuleRegistry)
      → k ≡ some key
      → signature_of m.manifest.signature ≡ s
      → All Honest r
      → All Honest (settle r (register_checked v s k m r))
  register-Honest none s m r ek es h = cc
  register-Honest (some k) none m r ek es h = All-insert Honest _ _ r (λ t. cc) h
  register-Honest (some k) (some s) m r ek es h =
      elim (Bool-cases (verify_module_signature v m.manifest s k)) [
        | inl good ↦
            let same : k ≡ key = cc ek in
            rw good (
              All-insert Honest _ _ r
                (λ t. (s, signature_of-some m.manifest.signature es, rw (sym same) good)) h)
        | inr bad ↦ rw bad h
      ]

  perform-Honest :
      (c : RegistryCall) (r : ModuleRegistry)
      → v.public_key ≡ some key
      → All Honest r
      → All Honest (perform v c r)
  unfolding register enable disable
  perform-Honest (add m) r k h = elim (Bool-cases (has m.manifest.id r)) [
    | inl known ↦ rw known h
    | inr new ↦
        rw new (register-Honest v.public_key (signature_of m.manifest.signature) m r k refl h)
  ]
  perform-Honest (switch_on id) r k h = elim (Option-cases (lookup id r)) [
    | inl missing ↦ rw missing h
    | inr (entry, found) ↦ rw found (All-insert Honest id _ r (All-lookup Honest id r h found) h)
  ]
  perform-Honest (switch_off id) r k h = elim (Option-cases (lookup id r)) [
    | inl missing ↦ rw missing h
    | inr (entry, found) ↦ elim (Bool-cases (is_core entry.module'.manifest.tier)) [
      | inl c ↦ rw (found, c) h
      | inr other ↦ rw (found, other) (All-insert Honest id _ r (All-lookup Honest id r h found) h)
    ]
  ]

  perform_all-Honest :
      (cs : List RegistryCall) (r : ModuleRegistry)
      → v.public_key ≡ some key
      → All Honest r
      → All Honest (perform_all v cs r)
  perform_all-Honest [] r k h = h
  perform_all-Honest (c ∷ cs) r k h =
      perform_all-Honest cs (perform v c r) k (perform-Honest c r k h)

  boot-Honest :
      (p : String × RegisteredModule → Bool) (r : ModuleRegistry)
      → ((e : String × RegisteredModule) → p e ≡ true → e.1.signature_verified ≡ true)
      → (q : String × RegisteredModule → Bool) → All Honest r
      → All (λ e. IsSigned e.1) (keep_if p (keep_if q r))
  boot-Honest p [] f q h = tt
  boot-Honest p (e ∷ r) f q h = elim (Bool-cases (q e)) [
    | inl yes' ↦ elim (Bool-cases (p e)) [
      | inl verified ↦ rw (yes', verified) (h.0 (f e verified), boot-Honest p r f q h.1)
      | inr not' ↦ rw (yes', not') (boot-Honest p r f q h.1)
    ]
    | inr no' ↦ rw no' (boot-Honest p r f q h.1)
  ]

  -- Where a public key is configured, a boot handler runs only for a module with a signature that the
  -- key verifies, whatever was registered, enabled and disabled since the registry was empty.
  pub invoke_on_boot-IsSigned :
      (cs : List RegistryCall) (mode : OrchestratorMode)
      → v.public_key ≡ some key
      → All (λ e. IsSigned e.1) (invoke_on_boot v mode (perform_all v cs []))
  unfolding invoke_on_boot invoke_hook
  invoke_on_boot-IsSigned cs mode k =
      boot-Honest (λ e. may_boot v.public_key e.1) (perform_all v cs []) (λ e h. rw k at h) _
        (perform_all-Honest cs [] k tt)

-- An enabled core module under an id.
abbrev pub IsOn : String → ModuleRegistry → Type 0
IsOn id r =
    (e : RegisteredModule) × (lookup id r ≡ some e)
    × (e.enabled ≡ true)
    × (is_core e.module'.manifest.tier ≡ true)

IsOn-write :
    (id j : String) (w : RegisteredModule) (r : ModuleRegistry)
    → (str_eq j id ≡ true → (w.enabled ≡ true) × (is_core w.module'.manifest.tier ≡ true))
    → IsOn id r
    → IsOn id (insert j w r)
IsOn-write id j w r f (e, found, on, c) = elim (Bool-cases (str_eq j id)) [
  | inl same ↦ (w, rw (lookup-insert, same) refl, (f same).0, (f same).1)
  | inr other ↦ (e, rw (lookup-insert, other) found, on, c)
]

IsOn-core :
    (id j : String) (r : ModuleRegistry) {entry : RegisteredModule}
    → str_eq j id ≡ true
    → lookup j r ≡ some entry
    → IsOn id r
    → is_core entry.module'.manifest.tier ≡ true
IsOn-core id j r {entry} same found (e, at_id, on, c) =
    let path : j ≡ id = (eq_iff j id).0 same in
    let one : entry ≡ e = cc (rw path at found) in rw one c

new_id : (id j : String) (r : ModuleRegistry) → has j r ≡ false → IsOn id r → str_eq j id ≡ false
new_id id j r new (e, found, on, c) = elim (Bool-cases (str_eq j id)) [
  | inl same ↦
      let path : j ≡ id = (eq_iff j id).0 same in
      let missing : lookup id r ≡ none = lookup-has id r (rw path at new) in absurd cc
  | inr other ↦ other
]

register-IsOn :
    (v : Verification) (k s : Option String) (m : RectorModule) (id : String) (r : ModuleRegistry)
    → str_eq m.manifest.id id ≡ false
    → IsOn id r
    → IsOn id (settle r (register_checked v s k m r))
register-IsOn v none none m id r new h = IsOn-write id m.manifest.id _ r (λ same. absurd cc) h
register-IsOn v none (some s) m id r new h = h
register-IsOn v (some k) none m id r new h = IsOn-write id m.manifest.id _ r (λ same. absurd cc) h
register-IsOn v (some k) (some s) m id r new h =
    elim (Bool-cases (verify_module_signature v m.manifest s k)) [
      | inl good ↦ rw good (IsOn-write id m.manifest.id _ r (λ same. absurd cc) h)
      | inr bad ↦ rw bad h
    ]

perform-IsOn :
    (v : Verification) (c : RegistryCall) (id : String) (r : ModuleRegistry)
    → IsOn id r
    → IsOn id (perform v c r)
unfolding register enable disable
perform-IsOn v (add m) id r h = elim (Bool-cases (has m.manifest.id r)) [
  | inl known ↦ rw known h
  | inr new ↦ rw new (
      register-IsOn v v.public_key (signature_of m.manifest.signature) m id r
        (new_id id m.manifest.id r new h) h)
]
perform-IsOn v (switch_on j) id r h = elim (Option-cases (lookup j r)) [
  | inl missing ↦ rw missing h
  | inr (entry, found) ↦ rw found (
      IsOn-write id j (record entry { enabled = true }) r
        (λ same. (refl, IsOn-core id j r same found h)) h)
]
perform-IsOn v (switch_off j) id r h = elim (Option-cases (lookup j r)) [
  | inl missing ↦ rw missing h
  | inr (entry, found) ↦ elim (Bool-cases (is_core entry.module'.manifest.tier)) [
    | inl c ↦ rw (found, c) h
    | inr other ↦
        rw (found, other)
          (IsOn-write id j (record entry { enabled = false }) r
            (λ same. let c = IsOn-core id j r same found h in absurd cc) h)
  ]
]

-- A core module that is enabled stays enabled, whatever is registered, enabled and disabled next.
pub perform_all-IsOn :
    (v : Verification) (cs : List RegistryCall) (id : String) (r : ModuleRegistry)
    → IsOn id r
    → IsOn id (perform_all v cs r)
perform_all-IsOn v [] id r h = h
perform_all-IsOn v (c ∷ cs) id r h =
    perform_all-IsOn v cs id (perform v c r) (perform-IsOn v c id r h)
