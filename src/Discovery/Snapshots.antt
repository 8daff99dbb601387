-- ===== src/Discovery/Snapshots.antt =====
-- discoverTenantTargets of internal/services/tenant_scoped_token.go: what a snapshot promises.
use tikti.Base.{
  length, ok, >>=-eq-ok, Text, teq, ◌≤◌, ◌≡◌, sym, ◌∙◌, Bool, true, false, not, ◌&&◌, ◌||◌, some,
  [], ◌∷◌, arith, contains, IsStrict, contains-sort, length-sort, sort-IsStrict,
}
use tikti.Domain.{User, invalid_tenant, master_tenant_id}
use tikti.Access.{
  Service, TenantRepository, Clients, or_else, present, tenant_is_active, is_present,
  recovered_master_platform_administrator,
}
use tikti.Access.Scoped.{or_else-eq-ok, check-eq-ok, present-eq-ok}
use tikti.Authority.{
  is_active_user, is_tenant_local_federated_principal, trusted_federated_platform_principal,
}
use tikti.Discovery.{
  Walk, Snapshot, find_authorization, snapshot, discover_tenant_targets, target_ids, visit_all,
  holds_admin,
}
use tikti.Discovery.Targets.{IsUp, IsBacked, visit_all-IsKept, first-IsKept}

-- The walk of a discovery.
abbrev pub walk : User → Text → Bool → Bool → Text → Walk
walk user home dynamic directory_principal privilege = record {
  user = user;
  home = home;
  dynamic = dynamic;
  directory_principal = directory_principal;
  platform_federated = trusted_federated_platform_principal (some user) home privilege;
}

module _ (s : Service) (clients : Clients) (user : User) (home : Text)
    (dynamic directory_principal : Bool) (privilege : Text) where
  -- The tenants of a snapshot: sorted, the home among them, all active, at most 100 in a dynamic
  -- discovery, where each but the home has a kept authorization unless the principal is the
  -- platform's; kept authorizations are backed; and MASTER authority needs a direct assignment.
  pub record IsSnapshot (repo : TenantRepository) (found : Snapshot) : Type 0 where
    pub repo_given : s.tenant_repo ≡ some repo
    pub active_user : is_active_user (some user) ≡ true
    pub sorted : IsStrict found.authorized_tenants
    pub has_home : contains found.authorized_tenants home ≡ true
    pub active :
        (x : Text)
        → contains found.authorized_tenants x ≡ true
        → IsUp s repo clients (walk user home dynamic directory_principal privilege) x
    pub size : dynamic ≡ true → length found.authorized_tenants ≤ 100
    pub authorized :
        (dynamic && not (trusted_federated_platform_principal (some user) home privilege)) ≡ true
        → (x : Text) → contains found.authorized_tenants x ≡ true
        → teq x home ≡ false
        → (a : _) × (find_authorization x found.authorizations ≡ some a)
    pub backed :
        (x : Text) (a : _)
        → find_authorization x found.authorizations ≡ some a
        → IsBacked s repo clients (walk user home dynamic directory_principal privilege) x a
    pub master :
        found.direct_master_platform_authority ≡ true
        → (found.principal_tenant_id ≡ master_tenant_id)
          × (recovered_master_platform_administrator s (some user) ≡ true)
          × (holds_admin (find_authorization master_tenant_id found.authorizations) ≡ true)
    pub other : found.direct_master_platform_authority ≡ false → found.principal_tenant_id ≡ home

  -- A discovery that returns had an active user and an active home. Its tenants are strictly sorted,
  -- all active, the home among them, and at most 100 in a dynamic discovery, where every tenant but
  -- the home has a kept authorization unless the principal is the platform's. A kept authorization
  -- rests on the audience client, the user's effective roles and their stored definitions. The
  -- principal is MASTER exactly under direct MASTER authority, which the directory confirms, and the
  -- home otherwise.
  pub discover-IsSnapshot :
      {found : Snapshot}
      → discover_tenant_targets s clients user home dynamic directory_principal privilege ≡ ok found
      → (repo : TenantRepository) × IsSnapshot repo found
  unfolding discover_tenant_targets snapshot
  discover-IsSnapshot {found} h =
      let local = is_tenant_local_federated_principal (some user) home in
      let w = walk user home dynamic directory_principal privilege in
      let (active_user, h1) = check-eq-ok (is_active_user (some user)) invalid_tenant _ h in
      let (repo, given, h2) = >>=-eq-ok (present invalid_tenant s.tenant_repo) _ h1 in
      let (sources, h3) =
        check-eq-ok (local || is_present s.directory_access || is_present s.exact_memberships)
          invalid_tenant _ h2 in
      let (tenant, got, h4) = >>=-eq-ok (or_else invalid_tenant (repo.get home)) _ h3 in
      let (up, h5) = check-eq-ok (tenant_is_active home tenant) invalid_tenant _ h4 in
      let (ids, listed, h6) = >>=-eq-ok (target_ids s repo user local w.platform_federated) _ h5 in
      let (home_listed, h7) =
        check-eq-ok (not (directory_principal && not (contains ids home))) invalid_tenant _ h6 in
      let (last, visited, done) =
        >>=-eq-ok
          (visit_all s repo clients w ids
            (record { allowed = home ∷ []; authorizations = []; lookups = 0 }))
          _ h7 in
      let start =
        first-IsKept s repo clients w
          (tenant, or_else-eq-ok invalid_tenant (repo.get home) got, up) in
      let kept = visit_all-IsKept s repo clients w ids _ start visited in
      let same : snapshot s w last ≡ found = ground (arith, done) in
      (
        repo,
        rw (← same) (record {
          repo_given = present-eq-ok invalid_tenant s.tenant_repo given;
          active_user = active_user;
          sorted = sort-IsStrict last.allowed kept.distinct;
          has_home = contains-sort last.allowed home ∙ kept.has_home;
          active = λ x c. kept.active x (sym (contains-sort last.allowed x) ∙ c);
          size = λ d. omega (arith, kept.size d, length-sort last.allowed);
          authorized = λ d x c n. kept.authorized d x (sym (contains-sort last.allowed x) ∙ c) n;
          backed = kept.backed;
          master = λ d. ground (arith, d);
          other = λ d. ground (arith, d);
        }),
      )
