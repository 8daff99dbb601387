-- ===== src/Targeting/Tests.antt =====
-- The theorems on authorization, discovery and targets at the session of the scenario.
use tikti.Base.{
  All, ok, teq, tle, has_prefix, is_empty, ◌≡◌, refl, ◌≢◌, ◌⊎◌, true, false, ◌&&◌, some, [], ◌∷◌,
  arith, same_texts, contains, insert, sort, add, add_all, trim_space,
}
use tikti.Targeting.Scenario.{
  acme, beta, flags_read, claim, reader, policy, employee, roles, clients, service, session,
  at_beta, as_given, reader_authorization,
}
use tikti.Targeting.Members.{member_authority_origin}
use tikti.Domain.{role_admin, platform_tenant_admin_scope}
use tikti.Domain.Clients.{is_managed_code_admin_audience}
use tikti.Scope.{
  tenant_role_assignable, canonical_audience_scopes, canonical_permissions,
  valid_canonical_permissions, valid_canonical_audience_scopes, collect_scopes, check_permissions,
  valid_permission, is_reserved, find_scope, is_tenant, reserved_assignable, contains_byte,
}
use tikti.Scope.Audience.{trimmed}
use tikti.Role.{valid_role_tenant_id, valid_role_name, normalize_permissions}
use tikti.Authority.{
  is_active_user, effective_user_role, trusted_federated_platform_principal,
  is_tenant_local_federated_principal, valid_signed_home, home_authority, home_global_authority,
  intersect_scope_sets, canonical_membership_roles,
}
use tikti.Access.{
  TenantRepository, grant_roles, grant_role, grant, authorize, tenant_is_active, access_tenant_ids,
  access_tenant_roles, resolve_membership_role_authorization, resolve_tenant_scoped_authorization,
  is_present, select_roles,
}
use tikti.Access.Laws.{IsGranted, resolve_membership-IsGranted}
use tikti.Access.Scoped.{IsAuthorized, resolve_tenant_scoped-IsAuthorized}
use tikti.Discovery.{
  audience_available, audience_available, Snapshot, discover_tenant_targets, default_scopes,
  visit_all, visit, target_ids, snapshot, admit, allow,
}
use tikti.Discovery.Snapshots.{IsSnapshot, discover-IsSnapshot}
use tikti.Targeting.{member_authority, global_candidates, resolve_tenant_discovery_authorization}
use tikti.Targeting.Inversion.{IsResolved}
use tikti.Targeting.Bounds.{IsValid, discovered_scopes_bounded}
use tikti.Targeting.Members.{is_secret}
use tikti.Targeting.Privilege.{no_platform_scope}

membership_run :
    resolve_membership_role_authorization policy (some roles) beta (reader ∷ [])
    ≡ ok reader_authorization
unfolding resolve_membership_role_authorization grant_roles grant_role grant
    valid_canonical_permissions canonical_permissions check_permissions valid_permission
    reserved_assignable find_scope teq contains_byte sort insert same_texts add_all has_prefix
    contains is_reserved is_tenant
membership_run = refl

resolve_membership-IsGranted_example :
    IsGranted policy roles beta (reader ∷ []) reader_authorization
resolve_membership-IsGranted_example =
    resolve_membership-IsGranted policy roles beta (reader ∷ []) membership_run

scoped_run :
    resolve_tenant_scoped_authorization service (some employee) beta false ≡ ok reader_authorization
unfolding resolve_tenant_scoped_authorization is_active_user valid_role_tenant_id access_tenant_ids
    access_tenant_roles select_roles tenant_is_active grant_roles grant_role grant
    valid_canonical_permissions canonical_permissions check_permissions valid_permission
    reserved_assignable find_scope teq contains_byte sort insert same_texts add_all has_prefix
    contains is_reserved is_tenant authorize canonical_membership_roles valid_role_name is_empty tle
    is_present
scoped_run = refl

resolve_tenant_scoped-IsAuthorized_example : IsAuthorized service employee beta reader_authorization
resolve_tenant_scoped-IsAuthorized_example =
    resolve_tenant_scoped-IsAuthorized service employee beta false scoped_run

abbrev at_home : Snapshot
at_home = record {
  principal_tenant_id = acme;
  direct_master_platform_authority = false;
  authorized_tenants = acme ∷ beta ∷ [];
  authorizations = (beta, reader_authorization) ∷ [];
}

discovery_run : discover_tenant_targets service clients employee acme true false [] ≡ ok at_home
unfolding discover_tenant_targets is_active_user valid_role_tenant_id access_tenant_ids
    access_tenant_roles tenant_is_active grant_roles grant_role grant valid_canonical_permissions
    canonical_permissions check_permissions valid_permission reserved_assignable find_scope teq
    contains_byte sort insert same_texts add_all has_prefix contains is_reserved is_tenant authorize
    canonical_membership_roles valid_role_name is_empty tle visit_all visit target_ids snapshot
    admit allow add is_tenant_local_federated_principal is_present
    trusted_federated_platform_principal audience_available is_managed_code_admin_audience
    valid_canonical_audience_scopes canonical_audience_scopes collect_scopes trim_space
    resolve_membership_role_authorization
discovery_run = refl

discover-IsSnapshot_example :
    (repo : TenantRepository) × IsSnapshot service clients employee acme true false [] repo at_home
discover-IsSnapshot_example =
    discover-IsSnapshot service clients employee acme true false [] discovery_run

session_run :
    resolve_tenant_discovery_authorization as_given service session beta
      (claim ∷ flags_read ∷ [])
      []
    ≡ ok at_beta
unfolding resolve_tenant_discovery_authorization discover_tenant_targets is_active_user
    valid_role_tenant_id access_tenant_ids access_tenant_roles tenant_is_active grant_roles
    grant_role grant valid_canonical_permissions canonical_permissions check_permissions
    valid_permission reserved_assignable find_scope teq contains_byte sort insert same_texts add_all
    has_prefix contains is_reserved is_tenant authorize canonical_membership_roles valid_role_name
    is_empty tle visit_all visit target_ids snapshot admit allow add trim_space valid_signed_home
    effective_user_role is_tenant_local_federated_principal is_present
    trusted_federated_platform_principal audience_available is_managed_code_admin_audience
    valid_canonical_audience_scopes canonical_audience_scopes collect_scopes
    resolve_membership_role_authorization intersect_scope_sets normalize_permissions
    tenant_role_assignable home_global_authority home_authority
session_run = refl

carried : contains at_beta.scopes flags_read ≡ true
unfolding contains teq
carried = refl

discovered_scopes_bounded_example :
    (r : IsResolved as_given service session beta (claim ∷ flags_read ∷ []) [] at_beta) × (contains
        (trimmed (default_scopes r.client))
        flags_read
      ≡ true)
    × (contains (trimmed (claim ∷ flags_read ∷ [])) flags_read ≡ true)
    × (contains r.authority flags_read ≡ true)
discovered_scopes_bounded_example =
    discovered_scopes_bounded as_given service session beta (claim ∷ flags_read ∷ []) [] flags_read
      session_run carried

ordinary : effective_user_role (some session.user) session.platform_privilege ≢ role_admin
unfolding effective_user_role teq
ordinary e = absurd (ground (arith, e))

not_assignable : tenant_role_assignable policy platform_tenant_admin_scope ≡ false
unfolding tenant_role_assignable is_reserved reserved_assignable find_scope teq has_prefix
not_assignable = refl

no_platform_scope_example : contains at_beta.scopes platform_tenant_admin_scope ≡ false
no_platform_scope_example =
    no_platform_scope as_given service session beta (claim ∷ flags_read ∷ []) [] session_run
      ordinary not_assignable

candidates_fit : All IsValid (claim ∷ flags_read ∷ [])
unfolding valid_permission contains_byte
candidates_fit = (refl, (refl, tt))

member_run :
    contains
      (member_authority as_given service session
        (claim ∷ flags_read ∷ [])
        (record reader_authorization { permissions = claim ∷ flags_read ∷ [] }))
      flags_read
    ≡ true
unfolding member_authority contains normalize_permissions sort tenant_role_assignable is_reserved
    has_prefix reserved_assignable find_scope teq is_tenant home_global_authority home_authority
    effective_user_role is_empty trim_space
member_run = refl

member_authority_origin_example :
    ((contains (claim ∷ flags_read ∷ []) flags_read && tenant_role_assignable policy flags_read)
      ≡ true)
    ⊎ (((false && contains (claim ∷ flags_read ∷ []) flags_read && is_secret flags_read) ≡ true)
        ⊎ (contains
              (global_candidates as_given service session (claim ∷ flags_read ∷ []))
              flags_read
            ≡ true))
member_authority_origin_example =
    member_authority_origin as_given service session (claim ∷ flags_read ∷ [])
      (record reader_authorization { permissions = claim ∷ flags_read ∷ [] }) flags_read
      candidates_fit candidates_fit member_run
