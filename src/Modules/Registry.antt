-- ===== src/Modules/Registry.antt =====
-- The registry of modules (src/modules/registry.ts, src/modules/manifest.ts). The public key that the
-- environment holds and the check of a signature are arguments; the key does not change. A module has a
-- handler for a hook or it has none; what a handler does is left out, except that of `enrichContext`.
pub mod Signatures
mod Tests
use rector.Prelude.{
  Bool, true, false, not, ◌&&◌, ◌||◌, String, Option, none, some, List, [], ◌∷◌, map, Dict, lookup,
  insert, has, any, keep_if, if◌then◌else◌, str_eq,
}

pub data ModuleTier : Type 0 where
  core builtin optional : ModuleTier

pub data ModuleHookName : Type 0 where
  on_boot on_external_run_start on_external_run_phase on_run_completed enrich_context :
      ModuleHookName

pub record ModuleManifest : Type 0 where
  pub id : String
  pub version : String
  pub api_version : String
  pub tier : ModuleTier
  pub hooks : List ModuleHookName
  pub default_enabled : Bool
  pub external_mode_only : Bool
  pub signature : Option String

pub record RectorModule : Type 0 where
  pub manifest : ModuleManifest
  pub handles : ModuleHookName → Bool

pub record RegisteredModule : Type 0 where
  pub module' : RectorModule
  pub enabled : Bool
  pub signature_verified : Bool

abbrev pub ModuleRegistry : Type 0
ModuleRegistry = Dict RegisteredModule

pub data RegistryError : Type 0 where
  already_registered no_public_key verification_failed unknown_module cannot_disable_core :
      String → RegistryError

pub data Registered : Type 0 where
  ok : ModuleRegistry → Registered
  err : RegistryError → Registered

pub data OrchestratorMode : Type 0 where
  local external : OrchestratorMode

abbrev pub is_hook : ModuleHookName → ModuleHookName → Bool
is_hook on_boot on_boot = true
is_hook on_external_run_start on_external_run_start = true
is_hook on_external_run_phase on_external_run_phase = true
is_hook on_run_completed on_run_completed = true
is_hook enrich_context enrich_context = true
is_hook _ _ = false

-- The key that the environment holds, and the verification of a signature of the JSON text of an id, a
-- version and an API version.
pub record Verification : Type 0 where
  pub public_key : Option String
  pub verify : String → String → String → String → String → Bool

abbrev pub verify_module_signature : Verification → ModuleManifest → String → String → Bool
verify_module_signature v manifest signature key =
    v.verify manifest.id manifest.version manifest.api_version signature key

abbrev signature_of : Option String → Option String
signature_of none = none
signature_of (some s) = if str_eq s "" then none else some s

abbrev without_boot : ModuleManifest → ModuleManifest
without_boot manifest = record manifest {
  hooks = keep_if (λ h. not (is_hook h on_boot)) manifest.hooks;
}

abbrev put : ModuleManifest → RectorModule → Bool → ModuleRegistry → ModuleRegistry
put manifest m verified r =
    insert manifest.id
      (record {
        module' = record m { manifest = manifest };
        enabled = manifest.default_enabled;
        signature_verified = verified;
      })
      r

-- The branches on the signature and the key.
abbrev pub register_checked :
    Verification → Option String → Option String → RectorModule → ModuleRegistry → Registered
register_checked v (some s) none m r = err (no_public_key m.manifest.id)
register_checked v (some s) (some key) m r =
    if verify_module_signature v m.manifest s key
    then ok (put m.manifest m true r)
    else err (verification_failed m.manifest.id)
register_checked v none none m r = ok (put m.manifest m false r)
register_checked v none (some key) m r = ok (put (without_boot m.manifest) m false r)

unfoldable pub register : Verification → RectorModule → ModuleRegistry → Registered
register v m r =
    if has m.manifest.id r
    then err (already_registered m.manifest.id)
    else register_checked v (signature_of m.manifest.signature) v.public_key m r

abbrev pub enable_entry : String → Option RegisteredModule → ModuleRegistry → Registered
enable_entry id none r = err (unknown_module id)
enable_entry id (some entry) r = ok (insert id (record entry { enabled = true }) r)

unfoldable pub enable : String → ModuleRegistry → Registered
enable id r = enable_entry id (lookup id r) r

abbrev pub is_core : ModuleTier → Bool
is_core core = true
is_core _ = false

abbrev pub disable_entry : String → Option RegisteredModule → ModuleRegistry → Registered
disable_entry id none r = err (unknown_module id)
disable_entry id (some entry) r =
    if is_core entry.module'.manifest.tier
    then err (cannot_disable_core id)
    else ok (insert id (record entry { enabled = false }) r)

unfoldable pub disable : String → ModuleRegistry → Registered
disable id r = disable_entry id (lookup id r) r

abbrev enabled_of : Option RegisteredModule → Bool
enabled_of none = false
enabled_of (some entry) = entry.enabled

abbrev pub is_enabled : String → ModuleRegistry → Bool
is_enabled id r = enabled_of (lookup id r)

abbrev verified_of : Option RegisteredModule → Bool
verified_of none = false
verified_of (some entry) = entry.signature_verified

abbrev pub is_signature_verified : String → ModuleRegistry → Bool
is_signature_verified id r = verified_of (lookup id r)

abbrev pub list : ModuleRegistry → List ModuleManifest
list r = map (λ (e : String × RegisteredModule). e.1.module'.manifest) r

abbrev pub list_enabled : ModuleRegistry → List ModuleManifest
list_enabled r = list (keep_if (λ e. e.1.enabled) r)

abbrev is_local : OrchestratorMode → Bool
is_local local = true
is_local external = false

-- Whether the loop of `invokeHook` reaches a module's handler.
abbrev pub is_invoked : ModuleHookName → OrchestratorMode → RegisteredModule → Bool
is_invoked hook mode entry =
    entry.enabled
    && any (λ h. is_hook h hook) entry.module'.manifest.hooks
    && not (entry.module'.manifest.external_mode_only && is_local mode)
    && entry.module'.handles hook

-- The modules whose handler runs, in the order of registration.
unfoldable pub invoke_hook : ModuleHookName → OrchestratorMode → ModuleRegistry → ModuleRegistry
invoke_hook hook mode r = keep_if (λ e. is_invoked hook mode e.1) r

abbrev pub may_boot : Option String → RegisteredModule → Bool
may_boot none entry = true
may_boot (some key) entry = entry.signature_verified

unfoldable pub invoke_on_boot : Verification → OrchestratorMode → ModuleRegistry → ModuleRegistry
invoke_on_boot v mode r = keep_if (λ e. may_boot v.public_key e.1) (invoke_hook on_boot mode r)

abbrev or_pack {ℓ} : {Pack : Type ℓ} → Pack → Option Pack → Pack
or_pack pack none = pack
or_pack pack (some p) = p

-- Every enriching module sees the pack that those before it made.
abbrev pub enrich_with {ℓ} :
    {Pack : Type ℓ} → (RegisteredModule → Pack → Option Pack) → ModuleRegistry → Pack → Pack
enrich_with f [] pack = pack
enrich_with f ((id, entry) ∷ r) pack = enrich_with f r (or_pack pack (f entry pack))

abbrev pub invoke_enrich_context {ℓ} :
    {Pack : Type ℓ}
    → (RegisteredModule → Pack → Option Pack)
    → OrchestratorMode
    → ModuleRegistry
    → Pack
    → Pack
invoke_enrich_context f mode r pack = enrich_with f (invoke_hook enrich_context mode r) pack
