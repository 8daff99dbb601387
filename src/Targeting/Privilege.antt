-- ===== src/Targeting/Privilege.antt =====
-- Where each scope of a token for another tenant comes from, and that the platform scope goes to
-- administrators only.
use tikti.Base.{
  List, Text, Bool-cases, All, ok, >>=-eq-ok, teq, teq_refl, teq_iff, is_empty, ◌≡◌, refl, sym, ◌∙◌,
  ◌≢◌, ◌⊎◌, inl, inr, true, false, not, ◌&&◌, ◌||◌, some, arith, contains, All-of_contains,
  trim_space,
}
use tikti.Domain.{User, invalid_tenant, role_admin, role_company_admin, platform_tenant_admin_scope}
use tikti.Scope.{tenant_role_assignable, requires_home_authority}
use tikti.Authority.{
  effective_user_role, home_authority, trusted_federated_platform_principal,
  tenant_feature_administration_scope,
}
use tikti.Authority.Laws.{home_authority_bounded, home_global_authority_bounded}
use tikti.Access.{Clients, Service, Roles, Authorization, access_tenant_roles}
use tikti.Access.Laws.{granted, IsGranted}
use tikti.Access.Scoped.{present-eq-ok, resolve_tenant_scoped-IsAuthorized}
use tikti.Discovery.{Authorizations, Snapshot, discover_tenant_targets}
use tikti.Discovery.Snapshots.{discover-IsSnapshot}
use tikti.Targeting.{
  Session, Discovered, member_authority, target_authority, session_authorization,
  strict_authorization, tenant_scoped_token_target, resolve_tenant_discovery_authorization,
}
use tikti.Targeting.Bounds.{IsValid, audience_defaults-members, discovered_scopes_bounded}
use tikti.Targeting.Members.{
  granted-IsValid, is_secret, global_candidates_bounded, member_authority_origin,
}

-- The roles of an authorization are the user's effective ones at the target, and its permissions are
-- exactly those of the stored roles.
pub record IsCurrent (s : Service) (user : User) (target : Text) (a : Authorization) : Type 0 where
  pub roles : Roles
  pub roles_given : s.role_svc ≡ some roles
  pub effective : access_tenant_roles s user.id target ≡ ok a.roles
  pub granted : IsGranted s.policy roles target a.roles a

platform_not_secret : is_secret platform_tenant_admin_scope ≡ false
unfolding is_secret teq
platform_not_secret = refl

module _ (to_lower : Text → Text) (s : Service) (session : Session) (target : Text) where
  strict_authorization-IsCurrent :
      {a : Authorization}
      → strict_authorization to_lower s session (tenant_scoped_token_target to_lower s target)
        ≡ ok a
      → IsCurrent s session.user target a
  unfolding strict_authorization tenant_scoped_token_target is_empty
  strict_authorization-IsCurrent h =
      let authorized =
        resolve_tenant_scoped-IsAuthorized s session.user target false
          (ground (arith, h, teq_iff (to_lower (trim_space target)) target)) in
      record {
        roles = authorized.roles;
        roles_given = authorized.roles_given;
        effective = authorized.effective;
        granted = authorized.permissions;
      }

  session_authorization-IsCurrent :
      (clients : Clients) {found : Snapshot} {a : Authorization}
      → discover_tenant_targets s clients session.user session.home session.dynamic
          session.directory_principal session.platform_privilege
        ≡ ok found
      → session_authorization to_lower s session target found.authorizations ≡ ok a
      → IsCurrent s session.user target a
  unfolding session_authorization
  session_authorization-IsCurrent clients {found} {a} discovered h =
      elim (Bool-cases session.dynamic) [
        | inl dynamic ↦
            let (repo, snapshot) =
              discover-IsSnapshot s clients session.user session.home session.dynamic
                session.directory_principal session.platform_privilege discovered in
            let backed =
              snapshot.backed target a
                (present-eq-ok invalid_tenant _ (ground (arith, h, dynamic))) in
            record {
              roles = backed.roles;
              roles_given = backed.roles_given;
              effective = backed.effective;
              granted = backed.granted;
            }
        | inr strict ↦ strict_authorization-IsCurrent (ground (arith, h, strict))
      ]

  -- The two ways to an authority: the home's, or that of an authorization at the target.
  target_authority_cases :
      (candidates : List Text) (authorizations : Authorizations) {roles authority : List Text}
      → target_authority to_lower s session target candidates authorizations ≡ ok (roles, authority)
      → (authority
            ≡ home_authority
                (some session.user)
                session.signed_role
                candidates
                session.platform_privilege)
          × (((teq target session.home && not session.directory_principal)
                || trusted_federated_platform_principal
                    (some session.user)
                    session.home
                    session.platform_privilege)
              ≡ true)
        ⊎ ((a : Authorization) × (session_authorization to_lower s session target authorizations
              ≡ ok a)
            × (roles ≡ a.roles)
            × (member_authority to_lower s session candidates a ≡ authority))
  unfolding target_authority
  target_authority_cases candidates authorizations {roles} {authority} h =
      elim (Bool-cases (
        (teq target session.home && not session.directory_principal)
        || trusted_federated_platform_principal (some session.user) session.home
            session.platform_privilege)) [
              | inl home ↦ inl (ground (arith, home, h), home)
              | inr away ↦
                  let chain = rw away at h in
                  let (a, resolved, done) =
                    >>=-eq-ok (session_authorization to_lower s session target authorizations) _
                      chain in
                  inr (a, resolved, ground (arith, done), ground (arith, done))
            ]

  -- The origins of a scope in the authority of an authorization at the target.
  member_scope_origin :
      (clients : Clients) {found : Snapshot} (candidates : List Text) (a : Authorization) (x : Text)
      → discover_tenant_targets s clients session.user session.home session.dynamic
          session.directory_principal session.platform_privilege
        ≡ ok found
      → session_authorization to_lower s session target found.authorizations ≡ ok a
      → All IsValid candidates
      → contains (member_authority to_lower s session candidates a) x ≡ true
      → (current : IsCurrent s session.user target a) × (((granted s.policy current.roles target
                a.roles x
              && tenant_role_assignable s.policy x)
            ≡ true)
          ⊎ (((a.legacy_creator_administrator && is_secret x) ≡ true)
              ⊎ (((requires_home_authority s.policy x || teq x tenant_feature_administration_scope)
                    ≡ true)
                  × ((effective_user_role (some session.user) session.platform_privilege
                        ≡ role_admin)
                      ⊎ ((effective_user_role (some session.user) session.platform_privilege
                            ≡ role_company_admin)
                          × (teq x platform_tenant_admin_scope ≡ false))))))
  member_scope_origin clients candidates a x discovered resolved valid h =
      let current = session_authorization-IsCurrent clients discovered resolved in
      let valid_permissions : All IsValid a.permissions =
        All-of_contains IsValid a.permissions λ z m.
          granted-IsValid s.policy current.roles target a.roles z
            (sym (current.granted.exact z) ∙ m) in
      (
        current,
        elim (member_authority_origin to_lower s session candidates a x valid valid_permissions h) [
          | inl mine ↦ inl (ground (arith, mine, current.granted.exact x))
          | inr (inl secret) ↦ inr (inl (ground (arith, secret)))
          | inr (inr global) ↦
              let (home, needs) =
                home_global_authority_bounded s.policy (some session.user) session.signed_role
                  candidates session.platform_privilege x
                  (global_candidates_bounded to_lower s session candidates x global) in
              let (candidate, signed, kind) =
                home_authority_bounded (some session.user) session.signed_role candidates
                  session.platform_privilege x home in
              inr (inr (needs, kind))
        ],
      )

  module _ (scope_ceiling requested_scopes : List Text) where
    -- A session whose effective role is not ADMIN obtains the platform's tenant administration scope
    -- at no target, unless the manifest lets tenant roles carry it.
    pub no_platform_scope :
        {d : Discovered}
        → resolve_tenant_discovery_authorization to_lower s session target scope_ceiling
            requested_scopes
          ≡ ok d
        → effective_user_role (some session.user) session.platform_privilege ≢ role_admin
        → tenant_role_assignable s.policy platform_tenant_admin_scope ≡ false
        → contains d.scopes platform_tenant_admin_scope ≡ false
    no_platform_scope {d} h ordinary reserved =
        elim (Bool-cases (contains d.scopes platform_tenant_admin_scope)) [
          | inr absent ↦ absent
          | inl present ↦
              let (r, in_defaults, in_ceiling, in_authority) =
                discovered_scopes_bounded to_lower s session target scope_ceiling requested_scopes
                  platform_tenant_admin_scope h present in
              let (members, valid) =
                audience_defaults-members s.policy target session.home r.client r.defaults_given in
              elim (target_authority_cases r.defaults r.found.authorizations r.authority_given) [
                | inl home ↦
                    let (candidate, signed, kind) =
                      home_authority_bounded (some session.user) session.signed_role r.defaults
                        session.platform_privilege platform_tenant_admin_scope
                        (rw home.0 at in_authority) in
                    elim kind [
                      | inl admin ↦ absurd (ordinary admin)
                      | inr company ↦
                          absurd (ground (arith, company.1, teq_refl platform_tenant_admin_scope))
                    ]
                | inr (a, resolved, same_roles, same) ↦
                    let (current, origin) =
                      member_scope_origin r.clients r.defaults a platform_tenant_admin_scope
                        r.discovered resolved valid (rw same in_authority) in
                    elim origin [
                      | inl mine ↦ absurd (ground (arith, mine, reserved))
                      | inr (inl secret) ↦ absurd (ground (arith, secret, platform_not_secret))
                      | inr (inr (needs, inl admin)) ↦ absurd (ordinary admin)
                      | inr (inr (needs, inr company)) ↦
                          absurd (ground (arith, company.1, teq_refl platform_tenant_admin_scope))
                    ]
              ]
        ]
