-- ===== src/Access.antt =====
-- internal/services/user_service.go and tenant_scoped_token.go: what userService reads (tenants,
-- memberships, roles, clients) as interfaces, and the resolution of tenant roles to permissions.
pub mod Laws
pub mod Scoped
use tikti.Base.{
  ltb, leb, ◌==◌, if◌then◌else◌, ltb→lt, lt→ltb, leb→le, ==_iff, Bool-cases, Option-cases, bool_ext,
  &&_true, length, all, keep, length-append, length-keep-le, All, All-append, All-append_left,
  All-append_right, All-reverse, All-keep, All-map, All-of-all, all-of-All, Result, ok, err, ◌>>=◌,
  >>=-eq-ok, Text, codes, teq, tle, tlt, teq_sound, teq_refl, teq_iff, teq_comm, tle_refl,
  tle_total, tle_antisymm, tle_trans, has_prefix, is_empty, ℕ, zero, suc, ◌+◌, ◌-◌, ◌*◌, ◌/◌, ◌%◌,
  ◌^◌, ◌≤◌, ◌<◌, String, ◌≡◌, refl, sym, ap, ◌∙◌, ◌≡⟨◌⟩◌, ◌∎, ◌≢◌, ◌↔◌, ◌⊎◌, inl, inr, Bool, true,
  false, not, ◌&&◌, ◌||◌, Option, none, some, List, [], ◌∷◌, ◌++◌, map, reverse, arith,
  is_empty_congr, same_texts, same_texts_iff, contains, is_nodup, contains-append, contains-keep,
  All-contains, All-of_contains, subset, contains-subset, insert, sort, IsSorted, IsStrict,
  contains-insert, contains-sort, All-insert, All-sort, length-insert, length-sort, sort-IsSorted,
  sort-IsStrict, sort_of_IsSorted, IsStrict-IsSorted, IsStrict-is_nodup, sort_of_IsStrict,
  IsStrict-ext, is_nodup-concat, contains_congr, add, add_all, contains-add, add-is_nodup,
  contains-add_all, add_all-is_nodup, IsFresh, IsFresh-nil, IsFresh-head, IsFresh-tail,
  IsFresh-cons, trim_space, trim_space_solid, IsSolid,
}
use tikti.Domain.{
  Error, Fallible, User, Tenant, RoleResp, Membership, Client, tenant_active, role_admin,
  master_tenant_id, auth_source_password, invalid_tenant, unauthorized_scope, stored_role_mismatch,
}
use tikti.Scope.{Policy, valid_canonical_permissions}
use tikti.Role.{valid_role_tenant_id}
use tikti.Authority.{canonical_membership_roles, tenant_identity_write_scope, is_active_user}

abbrev pub access_principal_user : Text
access_principal_user = codes "USER"

abbrev pub maximum_memberships_scanned : ℕ
maximum_memberships_scanned = 500

-- pkg/domain/identity_directory.go
pub record AccessAssignment : Type 0 where
  pub tenant_id : Text
  pub principal_type : Text
  pub principal_id : Text
  pub roles : List Text
  pub version : ℕ
  pub created_at : ℕ
  pub updated_at : ℕ

pub record TenantRepository : Type 0 where
  pub get : Text → Fallible (Option Tenant)
  pub list : ℕ → ℕ → Fallible (List Tenant × Text)

pub record Directory : Type 0 where
  pub list_effective_tenant_ids : Text → ℕ → Fallible (List Text × Bool)
  pub get_effective_tenant_roles : Text → Text → Fallible (List Text)
  pub get_access_assignment : Text → Text → Text → Fallible (Option AccessAssignment)

pub record ExactMemberships : Type 0 where
  pub list_tenant_ids_bounded : Text → ℕ → Fallible (List Text × Bool)
  pub get_exact : Text → Text → Fallible (Option Membership)

pub record Roles : Type 0 where
  pub get_by_name : Text → Text → Fallible (Option RoleResp)
  pub resolve_permissions : Text → List Text → Fallible (List Text)

pub record Clients : Type 0 where
  pub get_client : Text → Text → Fallible (Option Client)

-- The fields of userService that authorization reads; `none` is a nil dependency.
pub record Service : Type 0 where
  pub policy : Policy
  pub tenant_repo : Option TenantRepository
  pub directory_access : Option Directory
  pub exact_memberships : Option ExactMemberships
  pub role_svc : Option Roles
  pub client_svc : Option Clients
  pub tenant_scoped_token_claims_v1 : Bool
  pub tenant_scoped_token_allowlist : List Text
  pub tenant_target_discovery_v2 : Bool

-- Whose error is not passed on.
unfoldable pub or_else {ℓ} : {A : Type ℓ} → Error → Result Error A → Result Error A
or_else e (ok a) = ok a
or_else e (err other) = err e

unfoldable pub present {ℓ} : {A : Type ℓ} → Error → Option A → Result Error A
present e none = err e
present e (some a) = ok a

abbrev pub check : Bool → Error → Fallible (Unit {0})
check true e = ok tt
check false e = err e

infixl 5 ◌>>◌
abbrev pub ◌>>◌ {ℓ} : {B : Type ℓ} → Fallible (Unit {0}) → Result Error B → Result Error B
m >> k = m >>= λ _. k

unfoldable pub tenant_is_active : Text → Option Tenant → Bool
tenant_is_active tenant_id none = false
tenant_is_active tenant_id (some tenant) =
    teq tenant.id tenant_id && teq tenant.status tenant_active

-- Where both sources are nil the callers refuse before they ask.
unfoldable pub list_bounded : Option ExactMemberships → Text → Fallible (List Text × Bool)
list_bounded none user_id = err invalid_tenant
list_bounded (some repo) user_id = repo.list_tenant_ids_bounded user_id maximum_memberships_scanned

unfoldable pub access_tenant_ids_from :
    Option Directory → Option ExactMemberships → Text → Fallible (List Text × Bool)
unfolding list_bounded
access_tenant_ids_from none exact user_id = list_bounded exact user_id
access_tenant_ids_from (some directory) exact user_id =
    directory.list_effective_tenant_ids user_id maximum_memberships_scanned

unfoldable pub exact_roles : Text → Text → Option Membership → Fallible (List Text)
exact_roles user_id tenant_id none = err invalid_tenant
exact_roles user_id tenant_id (some membership) =
    if not (teq membership.tenant_id tenant_id) || not (teq membership.user_id user_id)
    then err invalid_tenant
    else present invalid_tenant (canonical_membership_roles membership.roles)

unfoldable pub access_roles_exact : Option ExactMemberships → Text → Text → Fallible (List Text)
unfolding exact_roles present
access_roles_exact none user_id tenant_id = err invalid_tenant
access_roles_exact (some repo) user_id tenant_id = do
  membership ← or_else invalid_tenant (repo.get_exact tenant_id user_id)
  exact_roles user_id tenant_id membership

unfoldable pub access_tenant_roles_from :
    Option Directory → Option ExactMemberships → Text → Text → Fallible (List Text)
unfolding access_roles_exact present
access_tenant_roles_from none exact user_id tenant_id = access_roles_exact exact user_id tenant_id
access_tenant_roles_from (some directory) exact user_id tenant_id = do
  roles ← directory.get_effective_tenant_roles user_id tenant_id
  present invalid_tenant (canonical_membership_roles roles)

module _ (s : Service) where
  unfoldable pub access_tenant_ids : Text → Fallible (List Text × Bool)
  unfolding access_tenant_ids_from
  access_tenant_ids user_id = access_tenant_ids_from s.directory_access s.exact_memberships user_id

  unfoldable pub access_tenant_roles : Text → Text → Fallible (List Text)
  unfolding access_tenant_roles_from
  access_tenant_roles user_id tenant_id =
      access_tenant_roles_from s.directory_access s.exact_memberships user_id tenant_id

-- tenantScopedTokenAuthorization
pub record Authorization : Type 0 where
  pub roles : List Text
  pub permissions : List Text
  pub legacy_creator_administrator : Bool

-- What the loop over the role names has found: the set of permissions, and the legacy flag.
pub record Grants : Type 0 where
  pub permissions : List Text
  pub legacy : Bool

abbrev pub no_grants : Grants
no_grants = record { permissions = []; legacy = false }

unfoldable pub grant : Text → Text → RoleResp → Grants → Grants
grant tenant_id name role g = record {
  permissions = add_all role.permissions g.permissions;
  legacy =
      g.legacy
      || (teq name (tenant_id ++ codes "-admin")
          && contains role.permissions tenant_identity_write_scope);
}

abbrev pub is_mismatch : Error → Bool
is_mismatch stored_role_mismatch = true
is_mismatch _ = false

-- One role of the loop: the answer of GetByName decides. With `skip` a role that is no exact tenant
-- role definition, or whose permissions are not canonical, contributes nothing.
unfoldable pub grant_role :
    Policy → Bool → Text → Text → Fallible (Option RoleResp) → Grants → Fallible Grants
unfolding grant
grant_role policy skip tenant_id name (err e) g =
    if skip && is_mismatch e then ok g else err unauthorized_scope
grant_role policy skip tenant_id name (ok none) g = err unauthorized_scope
grant_role policy skip tenant_id name (ok (some role)) g =
    if not (teq role.name name)
    then err unauthorized_scope
    else if not (valid_canonical_permissions policy role.permissions)
    then if skip then ok g else err unauthorized_scope
    else ok (grant tenant_id name role g)

unfoldable pub grant_roles : Policy → Roles → Bool → Text → List Text → Grants → Fallible Grants
grant_roles policy roles skip tenant_id [] g = ok g
grant_roles policy roles skip tenant_id (name ∷ names) g =
    grant_role policy skip tenant_id name (roles.get_by_name tenant_id name) g
    >>= grant_roles policy roles skip tenant_id names

unfoldable pub authorize : List Text → Grants → Authorization
authorize roles g = record {
  roles = roles;
  permissions = sort g.permissions;
  legacy_creator_administrator = g.legacy;
}

-- resolveMembershipRoleAuthorization; its `false` is the error.
unfoldable pub resolve_membership_role_authorization :
    Policy → Option Roles → Text → List Text → Fallible Authorization
unfolding authorize
resolve_membership_role_authorization policy none tenant_id roles = err unauthorized_scope
resolve_membership_role_authorization policy (some svc) tenant_id roles = do
  g ← grant_roles policy svc false tenant_id roles no_grants
  ok (authorize roles g)

-- The loop that reads the roles of every tenant of the user and keeps those of the target.
unfoldable pub select_roles :
    (Text → Fallible (List Text)) → Text → List Text → List Text → Fallible (List Text)
select_roles roles_of target selected [] = ok selected
select_roles roles_of target selected (tenant_id ∷ rest) =
    or_else invalid_tenant (roles_of tenant_id) >>= λ roles.
    select_roles roles_of target (if teq tenant_id target then roles else selected) rest

unfoldable pub is_present {ℓ} : {A : Type ℓ} → Option A → Bool
is_present none = false
is_present (some a) = true

unfoldable pub resolve_scoped :
    Service → TenantRepository → User → Text → Bool → Fallible Authorization
unfolding select_roles authorize present or_else
resolve_scoped s repo user target skip = do
  check (is_present s.directory_access || is_present s.exact_memberships) invalid_tenant
  (ids, exceeded) ← or_else invalid_tenant (access_tenant_ids s user.id)
  check (not exceeded && not (length ids == 0) && contains ids target) invalid_tenant
  selected ← select_roles (access_tenant_roles s user.id) target [] ids
  tenant ← or_else invalid_tenant (repo.get target)
  check (tenant_is_active target tenant) invalid_tenant
  roles ← present unauthorized_scope s.role_svc
  g ← grant_roles s.policy roles skip target selected no_grants
  ok (authorize selected g)

-- resolveTenantScopedAuthorization
unfoldable pub resolve_tenant_scoped_authorization :
    Service → Option User → Text → Bool → Fallible Authorization
unfolding resolve_scoped is_active_user
resolve_tenant_scoped_authorization s none target skip = err invalid_tenant
resolve_tenant_scoped_authorization s (some user) target skip = do
  check (is_active_user (some user) && valid_role_tenant_id target) invalid_tenant
  repo ← present invalid_tenant s.tenant_repo
  resolve_scoped s repo user target skip

unfoldable pub is_direct_master_admin : User → Fallible (Option AccessAssignment) → Bool
is_direct_master_admin user (err e) = false
is_direct_master_admin user (ok none) = false
is_direct_master_admin user (ok (some a)) =
    teq a.tenant_id master_tenant_id
    && teq a.principal_type access_principal_user
    && teq a.principal_id user.id
    && same_texts a.roles (role_admin ∷ [])

-- user.CompanyId names a workload tenant.
unfoldable pub workload_home : Option Text → Bool
workload_home none = false
workload_home (some company) =
    let home = trim_space company in not (is_empty home) && not (teq home master_tenant_id)

unfoldable pub recovered_from : Option Directory → User → Bool
unfolding is_direct_master_admin workload_home is_active_user
recovered_from none user = false
recovered_from (some directory) user =
    is_active_user (some user)
    && teq user.auth_source auth_source_password
    && teq user.role role_admin
    && workload_home user.company_id
    && is_direct_master_admin user
        (directory.get_access_assignment master_tenant_id access_principal_user user.id)

-- recoveredMasterPlatformAdministrator
unfoldable pub recovered_master_platform_administrator : Service → Option User → Bool
unfolding recovered_from
recovered_master_platform_administrator s none = false
recovered_master_platform_administrator s (some user) = recovered_from s.directory_access user
