-- ===== src/Native/Tests.antt =====
-- A registry of one native client, and the theorems at it.
use tikti.Base.{
  ok, err, Text, codes, teq, tle, has_prefix, is_empty, ◌≡◌, refl, true, some, [], ◌∷◌, same_texts,
  contains, sort, IsStrict, add_all, trim_space,
}
use tikti.Native.{
  role_name, check_roles, has_control, scope_name, fresh_scopes, valid_scopes, valid_path,
  well_formed_client, access_denied, NativeClient, NativeRole, scopes_for_roles, normalize,
  identifier,
}
use tikti.Native.Registry.{
  add_role, add_roles, add_client, add_clients, Registry, new_registry, allows_foreign_role,
  pair_key,
}
use tikti.Native.Scopes.{granted, scopes_for_roles_exact}
use tikti.Native.Foreign.{trusted, allows_foreign_role_iff}

abbrev claim : Text
claim = codes "codeq:claim"

abbrev flags_read : Text
flags_read = codes "code-admin:flags:read"

abbrev operator : NativeRole
operator = record { name = codes "operator"; scopes = flags_read ∷ claim ∷ [] }

abbrev auditor : NativeRole
auditor = record { name = codes "auditor"; scopes = codes "audit:read" ∷ [] }

abbrev console : NativeClient
console = record {
  id = codes "console";
  name = codes "Console";
  tenant_id = codes "acme";
  identity_tenant_id = codes "beta";
  audience = codes "code-admin-api";
  redirect_path = codes "/native/callback";
  base_role = operator;
  additional_roles = auditor ∷ [];
  required_scopes = claim ∷ [];
  ttl_seconds = 600;
}

abbrev registry : Registry
registry = record {
  clients =
      (
        codes "console",
        record console { base_role = record operator { scopes = flags_read ∷ claim ∷ [] } },
      )
      ∷ [];
  foreign_roles =
      (pair_key (codes "beta") (codes "acme"), codes "auditor")
      ∷ (pair_key (codes "beta") (codes "acme"), codes "operator")
      ∷ [];
  role_scopes =
      (pair_key (codes "acme") (codes "auditor"), codes "audit:read" ∷ [])
      ∷ (pair_key (codes "acme") (codes "operator"), flags_read ∷ claim ∷ [])
      ∷ [];
}

scopes_run : scopes_for_roles console (codes "operator" ∷ []) ≡ ok (flags_read ∷ claim ∷ [])
unfolding scopes_for_roles normalize well_formed_client identifier valid_path is_empty has_prefix
    teq trim_space valid_scopes fresh_scopes scope_name contains has_control check_roles role_name
    add_all sort tle
scopes_run = refl

base_role_needed : scopes_for_roles console (codes "auditor" ∷ []) ≡ err access_denied
unfolding scopes_for_roles normalize well_formed_client identifier valid_path is_empty has_prefix
    teq trim_space valid_scopes fresh_scopes scope_name contains has_control check_roles role_name
    add_all sort tle
base_role_needed = refl

registry_run : new_registry (console ∷ []) ≡ ok registry
unfolding new_registry add_clients same_texts normalize well_formed_client identifier valid_path
    is_empty has_prefix teq trim_space valid_scopes fresh_scopes scope_name contains has_control
    check_roles role_name add_all sort tle add_client add_roles add_role pair_key
registry_run = refl

beta_is_identifier : identifier (codes "beta") ≡ true
unfolding identifier
beta_is_identifier = refl

scopes_for_roles_exact_example :
    IsStrict (flags_read ∷ claim ∷ [])
    × ((x : Text)
        → contains (flags_read ∷ claim ∷ []) x
          ≡ granted (codes "operator" ∷ []) (operator ∷ auditor ∷ []) x)
    × (contains (codes "operator" ∷ []) (codes "operator") ≡ true)
    × ((x : Text) → contains (claim ∷ []) x ≡ true → contains (flags_read ∷ claim ∷ []) x ≡ true)
scopes_for_roles_exact_example = scopes_for_roles_exact console (codes "operator" ∷ []) scopes_run

allows_foreign_role_iff_example :
    allows_foreign_role (some registry) (codes "beta") (codes "acme") (codes "operator")
    ≡ trusted (console ∷ []) (codes "beta") (codes "acme") (codes "operator")
allows_foreign_role_iff_example =
    allows_foreign_role_iff (console ∷ []) (codes "beta") (codes "acme") (codes "operator")
      registry_run beta_is_identifier
