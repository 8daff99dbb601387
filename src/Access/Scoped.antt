-- ===== src/Access/Scoped.antt =====
-- resolveTenantScopedAuthorization of internal/services/tenant_scoped_token.go: what an authorization
-- for a target tenant rests on.
use tikti.Base.{
  ◌==◌, if◌then◌else◌, Bool-cases, length, Result, ok, err, >>=-eq-ok, Text, teq, teq_sound, ◌≡◌,
  refl, sym, ap, ◌∙◌, inl, inr, Bool, true, false, not, ◌&&◌, ◌||◌, Option, none, some, List, [],
  ◌∷◌, arith, contains,
}
use tikti.Domain.{Error, Fallible, User, Tenant, invalid_tenant, unauthorized_scope}
use tikti.Role.{valid_role_tenant_id}
use tikti.Authority.{is_active_user}
use tikti.Access.{
  is_present, Service, TenantRepository, Roles, Authorization, no_grants, or_else, present, check,
  tenant_is_active, access_tenant_ids, access_tenant_roles, grant_roles, authorize, select_roles,
  resolve_scoped, resolve_tenant_scoped_authorization, ◌>>◌,
}
use tikti.Access.Laws.{IsGranted, authorize-IsGranted}

pub or_else-eq-ok {ℓ} :
    {A : Type ℓ} (e : Error) (m : Result Error A) {a : A} → or_else e m ≡ ok a → m ≡ ok a
unfolding or_else
or_else-eq-ok e (ok b) h = h
or_else-eq-ok e (err other) h = cc

pub present-eq-ok {ℓ} :
    {A : Type ℓ} (e : Error) (o : Option A) {a : A} → present e o ≡ ok a → o ≡ some a
unfolding present
present-eq-ok e none h = cc
present-eq-ok e (some b) h = ground arith

select_roles-target :
    (roles_of : Text → Fallible (List Text)) (target : Text) (selected ids : List Text)
    {roles : List Text}
    → select_roles roles_of target selected ids ≡ ok roles
    → (contains ids target ≡ true → roles_of target ≡ ok roles)
      × (contains ids target ≡ false → selected ≡ roles)
unfolding select_roles contains
select_roles-target roles_of target selected [] h = (λ c. cc, λ c. ground arith)
select_roles-target roles_of target selected (id ∷ ids) {roles} h =
    let (found, e, later) = >>=-eq-ok (or_else invalid_tenant (roles_of id)) _ h in
    let (hit, miss) =
      select_roles-target roles_of target (if teq id target then found else selected) ids later in
    elim (Bool-cases (teq id target)) [
      | inl same ↦
          let here : roles_of target ≡ ok found =
            ap roles_of (sym (teq_sound id target same))
            ∙ or_else-eq-ok invalid_tenant (roles_of id) e in
          (
            λ c. elim (Bool-cases (contains ids target)) [
              | inl again ↦ hit again
              | inr last ↦ here ∙ ap ok (ground (arith, miss last, same))
            ],
            λ c. absurd (ground (arith, c, same)),
          )
      | inr other ↦ (
        λ c. hit (ground (arith, c, other)),
        λ c. ground (arith, other, miss (ground (arith, c))),
      )
    ]

-- Both tests of a chain hold where the chain returns.
pub check-eq-ok {ℓ} :
    {B : Type ℓ} (b : Bool) (e : Error) (k : Result Error B) {a : B}
    → (check b e >> k) ≡ ok a
    → (b ≡ true) × (k ≡ ok a)
check-eq-ok true e k h = (refl, h)
check-eq-ok false e k h = cc

-- What a resolved authorization rests on.
pub record IsAuthorized (s : Service) (user : User) (target : Text) (a : Authorization)
    : Type 0 where
  pub repo : TenantRepository
  pub repo_given : s.tenant_repo ≡ some repo
  pub roles : Roles
  pub roles_given : s.role_svc ≡ some roles
  pub active_user : is_active_user (some user) ≡ true
  pub canonical_target : valid_role_tenant_id target ≡ true
  pub tenant : Option Tenant
  pub stored : repo.get target ≡ ok tenant
  pub active_tenant : tenant_is_active target tenant ≡ true
  pub effective : access_tenant_roles s user.id target ≡ ok a.roles
  pub permissions : IsGranted s.policy roles target a.roles a

-- An authorization for a target exists only for an active user and an active tenant of that id; its
-- roles are the user's effective roles there, and its permissions exactly those of the stored roles.
pub resolve_tenant_scoped-IsAuthorized :
    (s : Service) (user : User) (target : Text) (skip : Bool) {a : Authorization}
    → resolve_tenant_scoped_authorization s (some user) target skip ≡ ok a
    → IsAuthorized s user target a
unfolding resolve_tenant_scoped_authorization resolve_scoped
resolve_tenant_scoped-IsAuthorized s user target skip {a} h =
    let (guard, h1) =
      check-eq-ok (is_active_user (some user) && valid_role_tenant_id target) invalid_tenant _ h in
    let (repo, repo_given, h2) = >>=-eq-ok (present invalid_tenant s.tenant_repo) _ h1 in
    let (sources, h3) =
      check-eq-ok (is_present s.directory_access || is_present s.exact_memberships) invalid_tenant _
        h2 in
    let (found, listed, h4) =
      >>=-eq-ok (or_else invalid_tenant (access_tenant_ids s user.id)) _ h3 in
    let (member, h5) =
      check-eq-ok (not found.1 && not (length found.0 == 0) && contains found.0 target)
        invalid_tenant _ h4 in
    let (selected, chosen, h6) =
      >>=-eq-ok (select_roles (access_tenant_roles s user.id) target [] found.0) _ h5 in
    let (tenant, stored, h7) = >>=-eq-ok (or_else invalid_tenant (repo.get target)) _ h6 in
    let (active, h8) = check-eq-ok (tenant_is_active target tenant) invalid_tenant _ h7 in
    let (roles, roles_given, h9) = >>=-eq-ok (present unauthorized_scope s.role_svc) _ h8 in
    let (g, granted_here, done) =
      >>=-eq-ok (grant_roles s.policy roles skip target selected no_grants) _ h9 in
    let same : authorize selected g ≡ a = ground (arith, done) in
    rw (← same) (record {
      repo = repo;
      repo_given = present-eq-ok invalid_tenant s.tenant_repo repo_given;
      roles = roles;
      roles_given = present-eq-ok unauthorized_scope s.role_svc roles_given;
      active_user = ground (arith, guard);
      canonical_target = ground (arith, guard);
      tenant = tenant;
      stored = or_else-eq-ok invalid_tenant (repo.get target) stored;
      active_tenant = active;
      effective =
          (select_roles-target (access_tenant_roles s user.id) target [] found.0 chosen).0
            (ground (arith, member));
      permissions = authorize-IsGranted s.policy roles skip target selected granted_here;
    })
