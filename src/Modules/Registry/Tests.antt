-- ===== src/Modules/Registry/Tests.antt =====
-- A signed and an unsigned module under a key, and the theorems at them.
use rector.Prelude.{
  true, false, String, Option, none, some, List, [], ◌∷◌, map, has, lookup, insert, All, str_eq,
  ◌≡◌, refl,
}
use rector.Modules.Registry.{
  ModuleTier, core, builtin, on_boot, RectorModule, RegisteredModule, ModuleRegistry, external,
  Verification, register, enable, invoke_hook, invoke_on_boot,
}
use rector.Modules.Registry.Signatures.{
  RegistryCall, add, switch_on, switch_off, perform_all, IsSigned, invoke_on_boot-IsSigned, IsOn,
  perform_all-IsOn,
}

abbrev module_of : String → ModuleTier → Option String → RectorModule
module_of id tier signature = record {
  manifest = record {
    id = id;
    version = "1";
    api_version = "v1";
    tier = tier;
    hooks = on_boot ∷ [];
    default_enabled = true;
    external_mode_only = false;
    signature = signature;
  };
  handles = λ h. true;
}

abbrev keyed : Verification
keyed = record { public_key = some "key"; verify = λ id version api_version s k. str_eq s "good" }

abbrev calls : List RegistryCall
calls =
    add (module_of "signed" core (some "good"))
    ∷ add (module_of "unsigned" builtin none)
    ∷ add (module_of "forged" builtin (some "bad"))
    ∷ switch_on "unsigned"
    ∷ []

abbrev registry : ModuleRegistry
registry = perform_all keyed calls []

booted :
    map (λ (e : String × RegisteredModule). e.0) (invoke_on_boot keyed external registry)
    ≡ "signed" ∷ []
unfolding invoke_on_boot invoke_hook register enable has lookup insert
booted = refl

invoke_on_boot-IsSigned_example :
    All (λ e. IsSigned keyed "key" e.1) (invoke_on_boot keyed external registry)
invoke_on_boot-IsSigned_example = invoke_on_boot-IsSigned keyed "key" calls external refl

abbrev signed_entry : RegisteredModule
signed_entry = record {
  module' = module_of "signed" core (some "good");
  enabled = true;
  signature_verified = true;
}

signed-IsOn : IsOn "signed" registry
unfolding register enable has lookup insert
signed-IsOn = (signed_entry, refl, refl, refl)

perform_all-IsOn_example : IsOn "signed" (perform_all keyed (switch_off "signed" ∷ []) registry)
perform_all-IsOn_example =
    perform_all-IsOn keyed (switch_off "signed" ∷ []) "signed" registry signed-IsOn
