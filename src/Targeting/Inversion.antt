-- ===== src/Targeting/Inversion.antt =====
-- The steps that a successful resolveTenantDiscoveryAuthorization has made.
use tikti.Base.{
  Text, ◌==◌, length, ok, >>=-eq-ok, teq, is_empty, ◌≡◌, refl, ◌≢◌, true, not, ◌&&◌, Option, some,
  List, [], ◌∷◌, arith, contains, trim_space,
}
use mathlib.Core.Path.{subst}
use tikti.Domain.{Client, invalid_tenant, invalid_argument, unauthorized_scope, master_tenant_id}
use tikti.Domain.Clients.{code_admin_audience}
use tikti.Scope.{canonical_audience_scopes}
use tikti.Role.{valid_role_tenant_id}
use tikti.Authority.{intersect_scope_sets}
use tikti.Access.{Service, Clients, or_else, present}
use tikti.Access.Scoped.{or_else-eq-ok, check-eq-ok, present-eq-ok}
use tikti.Discovery.{Snapshot, discover_tenant_targets}
use tikti.Targeting.{
  Session, Discovered, audience_defaults, target_authority, narrow, valid_home,
  resolve_tenant_discovery_authorization,
}

module _ (to_lower : Text → Text) (s : Service) (session : Session) (target : Text)
    (scope_ceiling requested_scopes : List Text) where
  pub record IsResolved (d : Discovered) : Type 0 where
    pub home_valid : valid_home to_lower s session ≡ true
    pub clients : Clients
    pub clients_given : s.client_svc ≡ some clients
    pub found : Snapshot
    pub discovered :
        discover_tenant_targets s clients session.user session.home session.dynamic
          session.directory_principal session.platform_privilege
        ≡ ok found
    pub listed : contains found.authorized_tenants target ≡ true
    pub ceiling : List Text
    pub ceiling_given : canonical_audience_scopes s.policy scope_ceiling ≡ some ceiling
    pub client : Option Client
    pub stored : clients.get_client target code_admin_audience ≡ ok client
    pub defaults : List Text
    pub defaults_given : audience_defaults s.policy target session.home client ≡ ok defaults
    pub authority : List Text
    pub authority_given :
        target_authority to_lower s session target defaults found.authorizations
        ≡ ok (d.roles, authority)
    pub narrowed :
        narrow to_lower s requested_scopes
          (intersect_scope_sets defaults (authority ∷ ceiling ∷ []))
        ≡ ok d.scopes
    pub some_scope : length d.scopes ≢ 0
    pub tenant_kept : d.tenant_id ≡ target
    pub tenants_kept : d.authorized_tenants ≡ found.authorized_tenants
    pub principal_kept : d.principal_tenant_id ≡ found.principal_tenant_id
    pub master_kept :
        d.direct_master_platform_authority
        ≡ (found.direct_master_platform_authority && teq target master_tenant_id)

  pub resolve-IsResolved :
      {d : Discovered}
      → resolve_tenant_discovery_authorization to_lower s session target scope_ceiling
          requested_scopes
        ≡ ok d
      → IsResolved d
  unfolding resolve_tenant_discovery_authorization
  resolve-IsResolved {d} h =
      let (valid, h1) =
        check-eq-ok
          (not (is_empty target)
            && teq (trim_space target) target
            && valid_role_tenant_id target
            && valid_home to_lower s session)
          invalid_tenant _ h in
      let (clients, clients_given, h2) = >>=-eq-ok (present invalid_tenant s.client_svc) _ h1 in
      let (found, discovered, h3) =
        >>=-eq-ok
          (or_else invalid_tenant (
            discover_tenant_targets s clients session.user session.home session.dynamic
              session.directory_principal session.platform_privilege))
          _ h2 in
      let (listed, h4) =
        check-eq-ok (contains found.authorized_tenants target) invalid_tenant _ h3 in
      let (ceiling, ceiling_given, h5) =
        >>=-eq-ok (present invalid_argument (canonical_audience_scopes s.policy scope_ceiling)) _
          h4 in
      let (client, stored, h6) = >>=-eq-ok (clients.get_client target code_admin_audience) _ h5 in
      let (defaults, defaults_given, h7) =
        >>=-eq-ok (audience_defaults s.policy target session.home client) _ h6 in
      let (pair, authority_given, h8) =
        >>=-eq-ok (target_authority to_lower s session target defaults found.authorizations) _ h7 in
      let (scopes, narrowed, h9) =
        >>=-eq-ok
          (narrow to_lower s requested_scopes
            (intersect_scope_sets defaults (pair.1 ∷ ceiling ∷ [])))
          _ h8 in
      let (nonempty, done) = check-eq-ok (not (length scopes == 0)) unauthorized_scope _ h9 in
      let value : Discovered = record {
        tenant_id = target;
        principal_tenant_id = found.principal_tenant_id;
        directory_principal = session.directory_principal;
        direct_master_platform_authority =
            found.direct_master_platform_authority && teq target master_tenant_id;
        authorized_tenants = found.authorized_tenants;
        roles = pair.0;
        scopes = scopes;
      } in
      let same : value ≡ d = ground (arith, done) in
      subst IsResolved same (record {
        home_valid = ground (arith, valid);
        clients = clients;
        clients_given = present-eq-ok invalid_tenant s.client_svc clients_given;
        found = found;
        discovered = or_else-eq-ok invalid_tenant _ discovered;
        listed = listed;
        ceiling = ceiling;
        ceiling_given = present-eq-ok invalid_argument _ ceiling_given;
        client = client;
        stored = stored;
        defaults = defaults;
        defaults_given = defaults_given;
        authority = pair.1;
        authority_given = authority_given;
        narrowed = narrowed;
        some_scope = ground (arith, nonempty);
        tenant_kept = refl;
        tenants_kept = refl;
        principal_kept = refl;
        master_kept = refl;
      })
