-- ===== src/Targeting/Scenario.antt =====
-- A session of an employee of `acme` that targets the tenant `beta`, where it holds the role `reader`.
use tikti.Base.{ok, Text, codes, true, false, none, some, [], ◌∷◌}
use tikti.Domain.{
  User, Client, tenant_active, user_active, role_company_employee, auth_source_password,
}
use tikti.Domain.Clients.{
  code_admin_audience, client_type_service, client_active, code_admin_manager, grant_types,
}
use tikti.Scope.{Policy}
use tikti.Access.{Service, TenantRepository, Directory, Roles, Clients, Authorization}
use tikti.Targeting.{Session, Discovered}

abbrev pub acme : Text
acme = codes "acme"

abbrev pub beta : Text
beta = codes "beta"

abbrev pub flags_read : Text
flags_read = codes "code-admin:flags:read"

abbrev pub claim : Text
claim = codes "codeq:claim"

abbrev pub reader : Text
reader = codes "reader"

abbrev pub policy : Policy
policy = ok (
    record { scope = flags_read; boundary = codes "tenant"; tenant_assignable = true; reason = [] }
    ∷ [])

abbrev pub employee : User
employee = record {
  id = codes "u1";
  email = codes "u1@acme";
  password = [];
  role = role_company_employee;
  status = user_active;
  company_id = some acme;
  token_version = 0;
  revision = 0;
  created_at = 0;
  auth_source = auth_source_password;
  external_subject = [];
  password_change_required = false;
}

abbrev pub stored_client : Text → Client
stored_client tenant_id = record {
  id = code_admin_audience;
  tenant_id = tenant_id;
  secret_hash = [];
  type = client_type_service;
  allowed_grant_types = grant_types;
  default_scopes = flags_read ∷ claim ∷ [];
  status = client_active;
  managed_by = code_admin_manager;
}

abbrev pub roles : Roles
roles = record {
  get_by_name = λ tenant_id name. ok (some (record { name = name; permissions = flags_read ∷ [] }));
  resolve_permissions = λ tenant_id names. ok (flags_read ∷ []);
}

abbrev pub clients : Clients
clients = record { get_client = λ tenant_id id. ok (some (stored_client tenant_id)) }

abbrev pub tenants : TenantRepository
tenants = record {
  get = λ id. ok (
      some (record {
        id = id;
        slug = id;
        name = id;
        status = tenant_active;
        created_at = 0;
        retired_at = none;
      }));
  list = λ offset limit. ok ([], []);
}

abbrev pub directory : Directory
directory = record {
  list_effective_tenant_ids = λ user_id limit. ok (acme ∷ beta ∷ [], false);
  get_effective_tenant_roles = λ user_id tenant_id. ok (reader ∷ []);
  get_access_assignment = λ tenant_id kind principal. ok none;
}

abbrev pub service : Service
service = record {
  policy = policy;
  tenant_repo = some tenants;
  directory_access = some directory;
  exact_memberships = none;
  role_svc = some roles;
  client_svc = some clients;
  tenant_scoped_token_claims_v1 = true;
  tenant_scoped_token_allowlist = [];
  tenant_target_discovery_v2 = true;
}

abbrev pub session : Session
session = record {
  user = employee;
  home = acme;
  signed_role = role_company_employee;
  platform_privilege = [];
  dynamic = true;
  directory_principal = false;
}

abbrev pub at_beta : Discovered
at_beta = record {
  tenant_id = beta;
  principal_tenant_id = acme;
  directory_principal = false;
  direct_master_platform_authority = false;
  authorized_tenants = acme ∷ beta ∷ [];
  roles = reader ∷ [];
  scopes = flags_read ∷ [];
}

abbrev pub as_given : Text → Text
as_given s = s

abbrev pub reader_authorization : Authorization
reader_authorization = record {
  roles = reader ∷ [];
  permissions = flags_read ∷ [];
  legacy_creator_administrator = false;
}
