-- ===== src/Role/Service.antt =====
-- The operations of internal/services/role_service.go over the repository of roles.
use tikti.Base.{
  ltb, if◌then◌else◌, length, ok, err, ◌>>=◌, Text, teq, tle, is_empty, ℕ, Bool, false, not, ◌||◌,
  Option, none, some, List, [], ◌∷◌, map, sort, add_all, trim_space,
}
use tikti.Domain.{
  Fallible, Role, RoleResp, role_scope_tenant, invalid_tenant, invalid_argument, role_conflict,
  role_not_found, repository_failure,
}
use tikti.Scope.{Policy, canonical_permissions}
use tikti.Role.{
  valid_role_tenant_id, valid_role_name, canonical_legacy_role_permissions, same_role_definition,
  exact_role_definition,
}

-- repository.RoleRepository and ExactRoleRepository, over the roles that are stored.
pub record RoleRepository (Stored : Type 0) : Type 0 where
  pub create : Text → Role → Stored → Fallible (Unit {0}) × Stored
  pub create_if_absent : Text → Role → Stored → Fallible (Option Role × Bool) × Stored
  pub find_role : Text → Text → Stored → Fallible (Option Role)
  pub list_roles : Text → Stored → Fallible (List Role)

pub record ExactRoleRepository (Stored : Type 0) : Type 0 where
  pub get_exact : Text → Text → Stored → Fallible (Option Role)
  pub list_exact : Text → Stored → Fallible (List (Option Role))

abbrev pub maximum_listed_roles : ℕ
maximum_listed_roles = 500

abbrev pub tenant_role : Text → Text → List Text → Role
tenant_role tenant_id name permissions = record {
  name = name;
  scope = role_scope_tenant;
  tenant_id = tenant_id;
  resource_id = [];
  permissions = permissions;
}

unfoldable pub role_response : Role → RoleResp
role_response role = record { name = role.name; permissions = role.permissions }

-- The slice sorted by name.
unfoldable pub insert_response : RoleResp → List RoleResp → List RoleResp
insert_response r [] = r ∷ []
insert_response r (x ∷ xs) =
    let rest = insert_response r xs in if tle r.name x.name then r ∷ x ∷ xs else x ∷ rest

unfoldable pub sort_responses : List RoleResp → List RoleResp
unfolding insert_response
sort_responses [] = []
sort_responses (x ∷ xs) = insert_response x (sort_responses xs)

-- Two neighbours have one name.
unfoldable pub has_duplicate : List RoleResp → Bool
has_duplicate [] = false
has_duplicate (x ∷ []) = false
has_duplicate (x ∷ y ∷ rest) = teq x.name y.name || has_duplicate (y ∷ rest)

unfoldable pub refuse_duplicates : List RoleResp → Fallible (List RoleResp)
unfolding has_duplicate
refuse_duplicates out = if has_duplicate out then err repository_failure else ok out

module _ (policy : Policy) (Stored : Type 0) (repo : RoleRepository Stored) where
  unfoldable pub created : Role → Fallible (Unit {0}) × Stored → Fallible RoleResp × Stored
  unfolding role_response
  created role (err e, db) = (err e, db)
  created role (ok done, db) = (ok (role_response role), db)

  unfoldable pub create_valid :
      Text → Text → Option (List Text) → Stored → Fallible RoleResp × Stored
  unfolding created
  create_valid tenant_id name none db = (err invalid_argument, db)
  create_valid tenant_id name (some permissions) db =
      created (tenant_role tenant_id name permissions)
        (repo.create tenant_id (tenant_role tenant_id name permissions) db)

  -- Create
  unfoldable pub create_role : Text → Text → List Text → Stored → Fallible RoleResp × Stored
  unfolding create_valid
  create_role tenant_id name permissions db =
      if is_empty (trim_space tenant_id)
      then (err invalid_tenant, db)
      else if is_empty (trim_space name)
      then (err invalid_argument, db)
      else create_valid tenant_id name (canonical_legacy_role_permissions policy permissions) db

  unfoldable pub agree :
      Text
      → Text
      → Role
      → Fallible (Option Role × Bool) × Stored
      → Fallible (RoleResp × Bool) × Stored
  unfolding role_response
  agree tenant_id name desired (err e, db) = (err e, db)
  agree tenant_id name desired (ok (none, fresh), db) = (err repository_failure, db)
  agree tenant_id name desired (ok (some stored, fresh), db) =
      if not (exact_role_definition policy tenant_id name (some stored))
        || not (same_role_definition stored desired)
      then (err role_conflict, db)
      else (ok (role_response stored, fresh), db)

  unfoldable pub create_named :
      Text → Text → Option (List Text) → Stored → Fallible (RoleResp × Bool) × Stored
  unfolding agree
  create_named tenant_id name none db = (err invalid_argument, db)
  create_named tenant_id name (some permissions) db =
      if not (valid_role_name name)
      then (err invalid_argument, db)
      else agree tenant_id name (tenant_role tenant_id name permissions)
          (repo.create_if_absent tenant_id (tenant_role tenant_id name permissions) db)

  -- CreateWithName; its flag says whether the role is new.
  unfoldable pub create_with_name :
      Text → Text → List Text → Stored → Fallible (RoleResp × Bool) × Stored
  unfolding create_named
  create_with_name tenant_id name permissions db =
      if not (valid_role_tenant_id tenant_id)
      then (err invalid_tenant, db)
      else create_named tenant_id name (canonical_permissions policy permissions) db

  unfoldable pub exact_response : Text → Text → Option Role → Fallible RoleResp
  unfolding role_response
  exact_response tenant_id name none = err role_not_found
  exact_response tenant_id name (some role) =
      if exact_role_definition policy tenant_id name (some role)
      then ok (role_response role)
      else err repository_failure

  unfoldable pub get_from :
      Option (ExactRoleRepository Stored) → Text → Text → Stored → Fallible RoleResp
  unfolding exact_response
  get_from none tenant_id name db = err repository_failure
  get_from (some exact) tenant_id name db =
      exact.get_exact tenant_id name db >>= exact_response tenant_id name

  -- GetByName
  unfoldable pub get_by_name_in :
      Option (ExactRoleRepository Stored) → Text → Text → Stored → Fallible RoleResp
  unfolding get_from
  get_by_name_in exact tenant_id name db =
      if not (valid_role_tenant_id tenant_id)
      then err invalid_tenant
      else if not (valid_role_name name)
      then err invalid_argument
      else get_from exact tenant_id name db

  -- The loop of ListCanonical.
  unfoldable pub exact_responses : Text → List (Option Role) → Fallible (List RoleResp)
  unfolding role_response
  exact_responses tenant_id [] = ok []
  exact_responses tenant_id (none ∷ rest) = err repository_failure
  exact_responses tenant_id (some role ∷ rest) =
      let later = exact_responses tenant_id rest in
      if exact_role_definition policy tenant_id role.name (some role)
      then (later >>= λ out. ok (role_response role ∷ out))
      else err repository_failure

  unfoldable pub list_checked : Text → List (Option Role) → Fallible (List RoleResp)
  unfolding exact_responses sort_responses refuse_duplicates
  list_checked tenant_id roles =
      if ltb maximum_listed_roles (length roles)
      then err repository_failure
      else exact_responses tenant_id roles >>= λ out. refuse_duplicates (sort_responses out)

  unfoldable pub list_from :
      Option (ExactRoleRepository Stored) → Text → Stored → Fallible (List RoleResp)
  unfolding list_checked
  list_from none tenant_id db = err repository_failure
  list_from (some exact) tenant_id db = exact.list_exact tenant_id db >>= list_checked tenant_id

  -- ListCanonical
  unfoldable pub list_canonical :
      Option (ExactRoleRepository Stored) → Text → Stored → Fallible (List RoleResp)
  unfolding list_from
  list_canonical exact tenant_id db =
      if not (valid_role_tenant_id tenant_id)
      then err invalid_tenant
      else list_from exact tenant_id db

  -- List
  unfoldable pub list_all : Text → Stored → Fallible (List RoleResp)
  unfolding role_response
  list_all tenant_id db =
      if is_empty (trim_space tenant_id)
      then err invalid_tenant
      else repo.list_roles tenant_id db >>= λ roles. ok (map role_response roles)

  unfoldable pub add_legacy : Option (List Text) → List Text → Fallible (List Text)
  add_legacy none set = err invalid_argument
  add_legacy (some permissions) set = ok (add_all permissions set)

  unfoldable pub add_stored : List Text → Option Role → Fallible (List Text)
  unfolding add_legacy
  add_stored set none = ok set
  add_stored set (some role) =
      add_legacy (canonical_legacy_role_permissions policy role.permissions) set

  -- The loop of ResolvePermissions.
  unfoldable pub collect_permissions : Text → Stored → List Text → List Text → Fallible (List Text)
  unfolding add_stored
  collect_permissions tenant_id db set [] = ok set
  collect_permissions tenant_id db set (raw ∷ rest) =
      (if is_empty (trim_space raw)
        then ok set
        else repo.find_role tenant_id (trim_space raw) db >>= add_stored set)
      >>= λ found. collect_permissions tenant_id db found rest

  -- ResolvePermissions
  unfoldable pub resolve_permissions_in : Text → List Text → Stored → Fallible (List Text)
  unfolding collect_permissions
  resolve_permissions_in tenant_id roles db =
      if is_empty (trim_space tenant_id)
      then err invalid_tenant
      else collect_permissions tenant_id db [] roles >>= λ set. ok (sort set)
