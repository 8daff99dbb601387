-- ===== src/Targeting.antt =====
-- internal/services/tenant_scoped_token.go: the authority of a session at a target tenant, and the
-- scopes of a discovered token.
pub mod Inversion
pub mod Bounds
pub mod Members
pub mod Privilege
pub mod Scenario
pub mod Tests
use tikti.Base.{
  Text, ltb, leb, ◌==◌, if◌then◌else◌, ltb→lt, lt→ltb, leb→le, ==_iff, Bool-cases, Option-cases,
  bool_ext, &&_true, length, all, keep, length-append, length-keep-le, All, All-append,
  All-append_left, All-append_right, All-reverse, All-keep, All-map, All-of-all, all-of-All, Result,
  ok, err, ◌>>=◌, >>=-eq-ok, codes, teq, tle, tlt, teq_sound, teq_refl, teq_iff, teq_comm, tle_refl,
  tle_total, tle_antisymm, tle_trans, has_prefix, is_empty, ℕ, zero, suc, ◌+◌, ◌-◌, ◌*◌, ◌/◌, ◌%◌,
  ◌^◌, ◌≤◌, ◌<◌, String, ◌≡◌, refl, sym, ap, ◌∙◌, ◌≡⟨◌⟩◌, ◌∎, ◌≢◌, ◌↔◌, ◌⊎◌, inl, inr, Bool, true,
  false, not, ◌&&◌, ◌||◌, Option, none, some, List, [], ◌∷◌, ◌++◌, map, reverse, arith,
  is_empty_congr, same_texts, same_texts_iff, contains, is_nodup, contains-append, contains-keep,
  All-contains, All-of_contains, subset, contains-subset, insert, sort, IsSorted, IsStrict,
  contains-insert, contains-sort, All-insert, All-sort, length-insert, length-sort, sort-IsSorted,
  sort-IsStrict, sort_of_IsSorted, IsStrict-IsSorted, IsStrict-is_nodup, sort_of_IsStrict,
  IsStrict-ext, is_nodup-concat, contains_congr, add, add_all, contains-add, add-is_nodup,
  contains-add_all, add_all-is_nodup, IsFresh, IsFresh-nil, IsFresh-head, IsFresh-tail,
  IsFresh-cons, trim_space, trim_space_solid, IsSolid,
}
use tikti.Domain.{
  Fallible, User, Client, invalid_tenant, invalid_argument, invalid_audience, unauthorized_scope,
  master_tenant_id,
}
use tikti.Domain.Clients.{
  is_managed_code_admin_audience, code_admin_audience, client_active, client_type_public,
  grant_types,
}
use tikti.Scope.{
  Policy, canonical_audience_scopes, valid_canonical_audience_scopes, tenant_role_assignable,
}
use tikti.Role.{valid_role_tenant_id, normalize_permissions}
use tikti.Authority.{
  is_active_user, effective_user_role, trusted_federated_platform_principal, valid_signed_home,
  valid_directory_principal_home, home_authority, home_global_authority, intersect_scope_sets,
  has_company, tenant_secret_read_scope, tenant_secret_write_scope,
}
use tikti.Access.{
  Service, Authorization, or_else, present, check, ◌>>◌, access_tenant_ids,
  resolve_tenant_scoped_authorization,
}
use tikti.Discovery.{Authorizations, find_authorization, default_scopes, discover_tenant_targets}

-- tenantDiscoveryAuthorization
pub record Discovered : Type 0 where
  pub tenant_id : Text
  pub principal_tenant_id : Text
  pub directory_principal : Bool
  pub direct_master_platform_authority : Bool
  pub authorized_tenants : List Text
  pub roles : List Text
  pub scopes : List Text

-- What a session brings: its user record, the home and role it was signed for, its platform
-- privilege, and how the exchange asks for targets.
pub record Session : Type 0 where
  pub user : User
  pub home : Text
  pub signed_role : Text
  pub platform_privilege : Text
  pub dynamic : Bool
  pub directory_principal : Bool

unfoldable pub valid_home_audience_client : Text → Option Client → Bool
valid_home_audience_client tenant_id none = false
valid_home_audience_client tenant_id (some client) =
    teq client.id code_admin_audience
    && teq client.tenant_id tenant_id
    && teq client.status client_active
    && same_texts client.allowed_grant_types grant_types
    && (if is_empty client.managed_by
        then teq client.type client_type_public && is_empty client.secret_hash
        else is_managed_code_admin_audience tenant_id (some client))

unfoldable pub home_defaults : Text → Option Client → Option (List Text) → Fallible (List Text)
home_defaults target client none = err invalid_audience
home_defaults target client (some canonical) =
    if not (valid_home_audience_client target client)
      || not (length canonical == length (default_scopes client))
    then err invalid_audience
    else ok canonical

-- The ceiling of the target's audience client.
unfoldable pub audience_defaults : Policy → Text → Text → Option Client → Fallible (List Text)
unfolding home_defaults
audience_defaults policy target home client =
    if teq target home
    then home_defaults target client (canonical_audience_scopes policy (default_scopes client))
    else if not (is_managed_code_admin_audience target client)
        || not (valid_canonical_audience_scopes policy (default_scopes client))
    then err invalid_audience
    else ok (default_scopes client)

-- tenantScopedTokenTarget: `none` is an unprotected target, `some` the strict target, empty where the
-- request is not in canonical form. `to_lower` is strings.ToLower.
unfoldable pub tenant_scoped_token_target : (Text → Text) → Service → Text → Option Text
tenant_scoped_token_target to_lower s requested =
    let canonical = to_lower (trim_space requested) in
    if not s.tenant_scoped_token_claims_v1 || is_empty requested
    then none
    else if not (contains s.tenant_scoped_token_allowlist canonical)
    then none
    else if not (teq canonical requested)
    then some []
    else some requested

module _ (to_lower : Text → Text) (s : Service) where
  unfoldable pub strict_authorization : Session → Option Text → Fallible Authorization
  strict_authorization session none = err invalid_tenant
  strict_authorization session (some strict) =
      if is_empty strict
      then err invalid_tenant
      else resolve_tenant_scoped_authorization s (some session.user) strict false

  unfoldable pub session_authorization : Session → Text → Authorizations → Fallible Authorization
  unfolding present strict_authorization
  session_authorization session target authorizations =
      if session.dynamic
      then present invalid_tenant (find_authorization target authorizations)
      else strict_authorization session (tenant_scoped_token_target to_lower s target)

  unfoldable pub secret_candidates : Bool → List Text → List Text
  secret_candidates legacy candidates =
      if legacy
      then keep (λ c. teq c tenant_secret_read_scope || teq c tenant_secret_write_scope) candidates
      else []

  unfoldable pub global_candidates : Session → List Text → List Text
  global_candidates session candidates =
      if session.directory_principal
      then []
      else home_global_authority s.policy (some session.user) session.signed_role candidates
          session.platform_privilege

  -- The authority outside the home: assignable role permissions, the two secret scopes of a legacy
  -- creator role, and what the home gives everywhere.
  unfoldable pub member_authority : Session → List Text → Authorization → List Text
  unfolding secret_candidates global_candidates
  member_authority session candidates a = normalize_permissions (
      (keep (tenant_role_assignable s.policy) a.permissions
        ++ secret_candidates a.legacy_creator_administrator candidates)
      ++ global_candidates session candidates)

  -- targetAuthority
  unfoldable pub target_authority :
      Session → Text → List Text → Authorizations → Fallible (List Text × List Text)
  unfolding member_authority session_authorization
  target_authority session target candidates authorizations =
      if (teq target session.home && not session.directory_principal)
        || trusted_federated_platform_principal (some session.user) session.home
            session.platform_privilege
      then ok (
        [],
        home_authority (some session.user) session.signed_role candidates
            session.platform_privilege,
      )
      else (do
        a ← session_authorization session target authorizations
        ok (a.roles, member_authority session candidates a))

  unfoldable pub valid_home : Session → Bool
  valid_home session =
      if session.directory_principal
      then valid_directory_principal_home (some session.user) session.home session.signed_role
          session.platform_privilege
      else valid_signed_home (some session.user) session.home session.signed_role
          session.platform_privilege

  -- An empty request takes all that is in force; any other takes itself, where all of it is.
  unfoldable pub narrow : List Text → List Text → Fallible (List Text)
  unfolding present
  narrow requested_scopes effective = if length requested_scopes == 0 then ok effective else (do
    requested ← present unauthorized_scope (canonical_audience_scopes s.policy requested_scopes)
    check (subset requested effective) unauthorized_scope
    ok requested)

  -- resolveTenantDiscoveryAuthorization
  unfoldable pub resolve_tenant_discovery_authorization :
      Session → Text → List Text → List Text → Fallible Discovered
  unfolding target_authority narrow audience_defaults valid_home or_else present
  resolve_tenant_discovery_authorization session target scope_ceiling requested_scopes = do
    check
        (not (is_empty target)
          && teq (trim_space target) target
          && valid_role_tenant_id target
          && valid_home session)
        invalid_tenant
    clients ← present invalid_tenant s.client_svc
    found ← or_else invalid_tenant (
        discover_tenant_targets s clients session.user session.home session.dynamic
          session.directory_principal session.platform_privilege)
    check (contains found.authorized_tenants target) invalid_tenant
    ceiling ← present invalid_argument (canonical_audience_scopes s.policy scope_ceiling)
    client ← clients.get_client target code_admin_audience
    defaults ← audience_defaults s.policy target session.home client
    (roles, authority) ← target_authority session target defaults found.authorizations
    scopes ← narrow requested_scopes (intersect_scope_sets defaults (authority ∷ ceiling ∷ []))
    check (not (length scopes == 0)) unauthorized_scope
    ok (record {
      tenant_id = target;
      principal_tenant_id = found.principal_tenant_id;
      directory_principal = session.directory_principal;
      direct_master_platform_authority =
          found.direct_master_platform_authority && teq target master_tenant_id;
      authorized_tenants = found.authorized_tenants;
      roles = roles;
      scopes = scopes;
    })

-- tenantIDs[0], where it can be a home.
unfoldable pub first_home : User → Text → Text → List Text → Fallible (Text × Bool)
first_home user signed_role platform_privilege [] = err invalid_tenant
first_home user signed_role platform_privilege (home ∷ rest) =
    if valid_directory_principal_home (some user) home signed_role platform_privilege
    then ok (home, true)
    else err invalid_tenant

-- resolveDiscoveryHome: the home of a session, and whether the directory chose it.
unfoldable pub directory_home : Service → User → Text → Text → Fallible (Text × Bool)
unfolding or_else first_home
directory_home s user signed_role platform_privilege = do
  (ids, exceeded) ← or_else invalid_tenant (access_tenant_ids s user.id)
  check (not exceeded) invalid_tenant
  first_home user signed_role platform_privilege ids

unfoldable pub resolve_discovery_home :
    Service → Option User → Text → Text → Text → Fallible (Text × Bool)
unfolding directory_home is_active_user has_company
resolve_discovery_home s none signed_home signed_role platform_privilege = err invalid_tenant
resolve_discovery_home s (some user) signed_home signed_role platform_privilege =
    if not (is_active_user (some user))
    then err invalid_tenant
    else if has_company (some user)
    then if valid_signed_home (some user) signed_home signed_role platform_privilege
      then ok (signed_home, false)
      else err invalid_tenant
    else if not (is_empty signed_home)
        || not (teq signed_role (effective_user_role (some user) platform_privilege))
    then err invalid_tenant
    else directory_home s user signed_role platform_privilege
