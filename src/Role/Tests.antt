-- ===== src/Role/Tests.antt =====
-- A repository that stores every role it is given, and the answers of the role service over it.
use tikti.Base.{
  All, ok, Text, codes, teq, tle, has_prefix, is_empty, ◌≡◌, refl, true, none, some, List, [], ◌∷◌,
  map, same_texts, contains, sort, IsStrict, add_all, trim_space,
}
use tikti.Domain.{Role, RoleResp}
use tikti.Scope.{
  is_reserved, valid_permission, check_permissions, is_reserved, valid_permission,
  check_permissions, Policy, canonical_permissions, valid_canonical_permissions,
}
use tikti.Role.{
  normalize_permissions, canonical_legacy_role_permissions, exact_role_definition,
  same_role_definition, exact_role_definition, valid_role_tenant_id, valid_role_name,
}
use tikti.Role.Resolution.{some_holds, resolve_permissions_exact}
use tikti.Role.Listing.{list_canonical_sorted}
use tikti.Role.Service.{
  list_canonical, resolve_permissions_in, RoleRepository, ExactRoleRepository, create_with_name,
  get_by_name_in, tenant_role,
}
use tikti.Role.Answers.{create_with_name_sound, get_by_name_sound}

abbrev no_manifest : Policy
no_manifest = ok []

abbrev claims : List Text
claims = codes "codeq:claim" ∷ []

abbrev keeps : RoleRepository (List Role)
keeps = record {
  create = λ tenant_id role db. (ok tt, role ∷ db);
  create_if_absent = λ tenant_id role db. (ok (some role, true), role ∷ db);
  find_role = λ tenant_id name db. ok none;
  list_roles = λ tenant_id db. ok db;
}

abbrev finds : ExactRoleRepository (List Role)
finds = record {
  get_exact = λ tenant_id name db. ok (some (tenant_role tenant_id name claims));
  list_exact = λ tenant_id db. ok (map some db);
}

abbrev worker : RoleResp
worker = record { name = codes "worker"; permissions = claims }

worker_created :
    (create_with_name no_manifest (List Role) keeps (codes "acme") (codes "worker") claims []).0
    ≡ ok (worker, true)
unfolding create_with_name valid_role_tenant_id canonical_permissions check_permissions
    valid_permission contains is_reserved has_prefix valid_role_name exact_role_definition teq
    is_empty valid_canonical_permissions sort same_texts same_role_definition
worker_created = refl

worker_found :
    get_by_name_in no_manifest (List Role) keeps (some finds) (codes "acme") (codes "worker") []
    ≡ ok worker
unfolding get_by_name_in valid_role_tenant_id valid_role_name exact_role_definition teq is_empty
    valid_canonical_permissions canonical_permissions check_permissions valid_permission contains
    is_reserved has_prefix same_texts sort
worker_found = refl

create_with_name_sound_example :
    (valid_role_tenant_id (codes "acme") ≡ true)
    × (valid_role_name (codes "worker") ≡ true)
    × (codes "worker" ≡ codes "worker")
    × (canonical_permissions no_manifest claims ≡ some claims)
create_with_name_sound_example =
    create_with_name_sound no_manifest (List Role) keeps (codes "acme") (codes "worker") claims []
      worker_created

get_by_name_sound_example :
    (codes "worker" ≡ codes "worker") × (valid_canonical_permissions no_manifest claims ≡ true)
get_by_name_sound_example =
    get_by_name_sound no_manifest (List Role) keeps (some finds) (codes "acme") (codes "worker") []
      worker_found

abbrev holds_claims : RoleRepository (List Role)
holds_claims = record keeps {
  find_role = λ tenant_id name db. ok (some (tenant_role tenant_id name claims));
}

worker_resolved :
    resolve_permissions_in no_manifest
      (List Role)
      holds_claims
      (codes "acme")
      (codes "worker" ∷ [])
      []
    ≡ ok claims
unfolding resolve_permissions_in is_empty trim_space canonical_legacy_role_permissions
    normalize_permissions sort contains canonical_permissions check_permissions valid_permission
    is_reserved has_prefix add_all
worker_resolved = refl

resolve_permissions_exact_example :
    IsStrict claims
    × ((x : Text)
        → contains claims x
          ≡ some_holds no_manifest
              (List Role)
              holds_claims
              (codes "acme")
              []
              (codes "worker" ∷ [])
              x)
resolve_permissions_exact_example =
    resolve_permissions_exact no_manifest (List Role) holds_claims (codes "acme")
      (codes "worker" ∷ []) [] worker_resolved

abbrev two_roles : List Role
two_roles =
    tenant_role (codes "acme") (codes "worker") claims
    ∷ tenant_role (codes "acme") (codes "auditor") claims
    ∷ []

abbrev auditor : RoleResp
auditor = record { name = codes "auditor"; permissions = claims }

roles_listed :
    list_canonical no_manifest (List Role) keeps (some finds) (codes "acme") two_roles
    ≡ ok (auditor ∷ worker ∷ [])
unfolding list_canonical valid_role_tenant_id exact_role_definition teq is_empty valid_role_name
    valid_canonical_permissions canonical_permissions check_permissions valid_permission contains
    is_reserved has_prefix same_texts sort tle
roles_listed = refl

list_canonical_sorted_example :
    IsStrict (codes "auditor" ∷ codes "worker" ∷ [])
    × All
        (λ (r : RoleResp). valid_canonical_permissions no_manifest r.permissions ≡ true)
        (auditor ∷ worker ∷ [])
list_canonical_sorted_example =
    list_canonical_sorted no_manifest (List Role) keeps (some finds) (codes "acme") two_roles
      roles_listed
