-- ===== src/Discovery.antt =====
-- internal/services/tenant_scoped_token.go: discovery of the tenants that a session may target, and
-- the scopes that a token for one of them carries. The metrics that the code counts are left out.
pub mod Targets
pub mod Snapshots
use tikti.Base.{
  ltb, leb, ◌==◌, if◌then◌else◌, ltb→lt, lt→ltb, leb→le, ==_iff, Bool-cases, Option-cases, bool_ext,
  &&_true, length, all, keep, length-append, length-keep-le, All, All-append, All-append_left,
  All-append_right, All-reverse, All-keep, All-map, All-of-all, all-of-All, Result, ok, err, ◌>>=◌,
  >>=-eq-ok, Text, codes, teq, tle, tlt, teq_sound, teq_refl, teq_iff, teq_comm, tle_refl,
  tle_total, tle_antisymm, tle_trans, has_prefix, is_empty, ℕ, zero, suc, ◌+◌, ◌-◌, ◌*◌, ◌/◌, ◌%◌,
  ◌^◌, ◌≤◌, ◌<◌, String, ◌≡◌, refl, sym, ap, ◌∙◌, ◌≡⟨◌⟩◌, ◌∎, ◌≢◌, ◌↔◌, ◌⊎◌, inl, inr, Bool, true,
  false, not, ◌&&◌, ◌||◌, Option, none, some, List, [], ◌∷◌, ◌++◌, map, reverse, arith,
  is_empty_congr, same_texts, same_texts_iff, contains, is_nodup, contains-append, contains-keep,
  All-contains, All-of_contains, subset, contains-subset, insert, sort, IsSorted, IsStrict,
  contains-insert, contains-sort, All-insert, All-sort, length-insert, length-sort, sort-IsSorted,
  sort-IsStrict, sort_of_IsSorted, IsStrict-IsSorted, IsStrict-is_nodup, sort_of_IsStrict,
  IsStrict-ext, is_nodup-concat, contains_congr, add, add_all, contains-add, add-is_nodup,
  contains-add_all, add_all-is_nodup, IsFresh, IsFresh-nil, IsFresh-head, IsFresh-tail,
  IsFresh-cons, trim_space, trim_space_solid, IsSolid,
}
use tikti.Domain.{
  Error, Fallible, User, Tenant, Client, invalid_tenant, invalid_argument, invalid_audience,
  unauthorized_scope, master_tenant_id, role_admin, tenant_active,
}
use tikti.Domain.Clients.{
  is_managed_code_admin_audience, code_admin_audience, client_active, client_type_public,
  grant_types,
}
use tikti.Scope.{
  Policy, canonical_audience_scopes, valid_canonical_audience_scopes, tenant_role_assignable,
}
use tikti.Role.{valid_role_tenant_id, normalize_permissions}
use tikti.Authority.{
  is_active_user, effective_user_role, is_tenant_local_federated_principal,
  trusted_federated_platform_principal, valid_signed_home, valid_directory_principal_home,
  home_authority, home_global_authority, intersect_scope_sets, has_company,
  tenant_secret_read_scope, tenant_secret_write_scope,
}
use tikti.Access.{
  Service, TenantRepository, Clients, Authorization, or_else, present, check, ◌>>◌,
  tenant_is_active, access_tenant_ids, access_tenant_roles, resolve_membership_role_authorization,
  resolve_tenant_scoped_authorization, recovered_master_platform_administrator, is_present,
}

abbrev pub maximum_authorized_tenant_targets : ℕ
maximum_authorized_tenant_targets = 100

abbrev pub maximum_dynamic_membership_roles : ℕ
maximum_dynamic_membership_roles = 100

abbrev pub maximum_discovery_role_lookups : ℕ
maximum_discovery_role_lookups = 500

-- map[string]tenantScopedTokenAuthorization, the last entry first.
abbrev pub Authorizations : Type 0
Authorizations = List (Text × Authorization)

unfoldable pub find_authorization : Text → Authorizations → Option Authorization
find_authorization tenant_id [] = none
find_authorization tenant_id ((key, a) ∷ rest) =
    if teq key tenant_id then some a else find_authorization tenant_id rest

-- The variables of the loop of discoverTenantTargets.
pub record Found : Type 0 where
  pub allowed : List Text
  pub authorizations : Authorizations
  pub lookups : ℕ

-- tenantDiscoverySnapshot
pub record Snapshot : Type 0 where
  pub principal_tenant_id : Text
  pub direct_master_platform_authority : Bool
  pub authorized_tenants : List Text
  pub authorizations : Authorizations

unfoldable pub default_scopes : Option Client → List Text
default_scopes none = []
default_scopes (some client) = client.default_scopes

unfoldable pub audience_available : Policy → Text → Fallible (Option Client) → Bool
unfolding default_scopes
audience_available policy tenant_id (err e) = false
audience_available policy tenant_id (ok client) =
    is_managed_code_admin_audience tenant_id client
    && valid_canonical_audience_scopes policy (default_scopes client)

-- What the loop reads and does not change.
pub record Walk : Type 0 where
  pub user : User
  pub home : Text
  pub dynamic : Bool
  pub directory_principal : Bool
  pub platform_federated : Bool

-- allowed[tenantID] = struct{}{}, within the limit
unfoldable pub allow : Walk → Text → Found → Fallible Found
allow w tenant_id found =
    let allowed = add tenant_id found.allowed in
    if w.dynamic && ltb maximum_authorized_tenant_targets (length allowed)
    then err invalid_tenant
    else ok (record found { allowed = allowed })

unfoldable pub record_authorization : Walk → Text → Fallible Authorization → Found → Fallible Found
unfolding allow
record_authorization w tenant_id (err e) found = ok found
record_authorization w tenant_id (ok a) found =
    allow w tenant_id (record found { authorizations = (tenant_id, a) ∷ found.authorizations })

module _ (s : Service) (repo : TenantRepository) (clients : Clients) where
  -- A tenant other than the home: its audience client, the role budget, its roles.
  unfoldable pub admit : Walk → Text → List Text → Found → Fallible Found
  unfolding record_authorization
  admit w tenant_id roles found =
      if not
        (audience_available s.policy tenant_id (clients.get_client tenant_id code_admin_audience))
      then ok found
      else if ltb (maximum_discovery_role_lookups - found.lookups) (length roles)
      then err invalid_tenant
      else record_authorization w tenant_id
          (resolve_membership_role_authorization s.policy s.role_svc tenant_id roles)
          (record found { lookups = found.lookups + length roles })

  unfoldable pub admit_active : Walk → Text → List Text → Option Tenant → Found → Fallible Found
  unfolding admit allow
  admit_active w tenant_id roles tenant found =
      if not (tenant_is_active tenant_id tenant)
      then ok found
      else if w.dynamic
          && not w.platform_federated
          && (not (teq tenant_id w.home) || w.directory_principal)
      then admit w tenant_id roles found
      else allow w tenant_id found

  unfoldable pub walk_roles : Walk → Text → Fallible (List Text)
  unfolding or_else
  walk_roles w tenant_id =
      if w.platform_federated
      then ok []
      else or_else invalid_tenant (access_tenant_roles s w.user.id tenant_id)

  -- One round of the loop; `ok found` is `continue`.
  unfoldable pub visit : Walk → Text → Found → Fallible Found
  unfolding admit_active walk_roles
  visit w tenant_id found =
      if not w.dynamic && not (contains s.tenant_scoped_token_allowlist tenant_id)
      then ok found
      else (do
        roles ← walk_roles w tenant_id
        check (not (w.dynamic && ltb maximum_dynamic_membership_roles (length roles)))
            invalid_tenant
        tenant ← or_else invalid_tenant (repo.get tenant_id)
        admit_active w tenant_id roles tenant found)

  unfoldable pub visit_all : Walk → List Text → Found → Fallible Found
  visit_all w [] found = ok found
  visit_all w (tenant_id ∷ rest) found = visit w tenant_id found >>= visit_all w rest

unfoldable pub active_ids : List Tenant → List Text
active_ids [] = []
active_ids (tenant ∷ rest) =
    if teq tenant.status tenant_active then tenant.id ∷ active_ids rest else active_ids rest

unfoldable pub federated_ids : Fallible (List Tenant × Text) → Fallible (List Text)
unfolding active_ids
federated_ids (err e) = err invalid_tenant
federated_ids (ok (tenants, next)) =
    if not (is_empty next) || ltb maximum_authorized_tenant_targets (length tenants)
    then err invalid_tenant
    else ok (active_ids tenants)

unfoldable pub member_ids : Fallible (List Text × Bool) → Fallible (List Text)
member_ids (err e) = err invalid_tenant
member_ids (ok (ids, exceeded)) = if exceeded then err invalid_tenant else ok ids

-- The tenants to visit: every active one for a platform principal, none for another federated one.
unfoldable pub target_ids : Service → TenantRepository → User → Bool → Bool → Fallible (List Text)
unfolding federated_ids member_ids
target_ids s repo user tenant_local platform =
    if platform
    then federated_ids (repo.list 0 (maximum_authorized_tenant_targets + 1))
    else if tenant_local
    then ok []
    else member_ids (access_tenant_ids s user.id)

abbrev pub holds_admin : Option Authorization → Bool
holds_admin none = false
holds_admin (some a) = contains a.roles role_admin

unfoldable pub snapshot : Service → Walk → Found → Snapshot
unfolding find_authorization
snapshot s w found =
    let direct =
      w.dynamic
      && holds_admin (find_authorization master_tenant_id found.authorizations)
      && recovered_master_platform_administrator s (some w.user) in
    record {
      principal_tenant_id = if direct then master_tenant_id else w.home;
      direct_master_platform_authority = direct;
      authorized_tenants = sort found.allowed;
      authorizations = found.authorizations;
    }

-- discoverTenantTargets for a user that is there; the client service is not nil where it is reached.
unfoldable pub discover_tenant_targets :
    Service → Clients → User → Text → Bool → Bool → Text → Fallible Snapshot
unfolding visit_all target_ids snapshot is_active_user present or_else
discover_tenant_targets s clients user home dynamic directory_principal platform_privilege = do
  let tenant_local = is_tenant_local_federated_principal (some user) home
  let platform = trusted_federated_platform_principal (some user) home platform_privilege
  check (is_active_user (some user)) invalid_tenant
  repo ← present invalid_tenant s.tenant_repo
  check (tenant_local || is_present s.directory_access || is_present s.exact_memberships)
      invalid_tenant
  tenant ← or_else invalid_tenant (repo.get home)
  check (tenant_is_active home tenant) invalid_tenant
  ids ← target_ids s repo user tenant_local platform
  check (not (directory_principal && not (contains ids home))) invalid_tenant
  let w : Walk = record {
    user = user;
    home = home;
    dynamic = dynamic;
    directory_principal = directory_principal;
    platform_federated = platform;
  }
  found ←
      visit_all s repo clients w ids
        (record { allowed = home ∷ []; authorizations = []; lookups = 0 })
  ok (snapshot s w found)
