-- ===== src/Discovery/Targets.antt =====
-- The loop of discoverTenantTargets: every tenant that it allows is active and, for a dynamic
-- discovery outside the home, backed by an audience client and resolved roles.
use tikti.Base.{
  Option, List, ltb, Bool-cases, length, ok, err, >>=-eq-ok, Text, teq, teq_sound, teq_refl,
  teq_comm, ℕ, ◌+◌, ◌≤◌, ◌≡◌, refl, sym, ap, ◌∙◌, inl, inr, Bool, true, false, not, ◌&&◌, ◌||◌,
  none, some, [], ◌∷◌, arith, contains, is_nodup, add, contains-add, add-is_nodup,
}
use tikti.Domain.{Tenant}
use tikti.Domain.Clients.{code_admin_audience}
use tikti.Access.Scoped.{or_else-eq-ok, check-eq-ok}
use tikti.Access.{
  or_else, resolve_membership_role_authorization, Service, TenantRepository, Clients, Roles,
  Authorization, tenant_is_active, access_tenant_roles,
}
use mathlib.Core.Path.{subst₂}
use tikti.Access.Laws
use tikti.Access.Laws.{resolve_membership-IsGranted, IsGranted}
use tikti.Discovery.{
  invalid_tenant, walk_roles, visit_all, visit, admit_active, Fallible, record_authorization, admit,
  Walk, Found, find_authorization, audience_available, allow,
}

module _ (s : Service) (repo : TenantRepository) (clients : Clients) (w : Walk) where
  -- The stored tenant of that id is active.
  abbrev pub IsUp : Text → Type 0
  IsUp id =
      (tenant : Option Tenant) × (repo.get id ≡ ok tenant) × (tenant_is_active id tenant ≡ true)

  -- A kept authorization: the audience client is there, the roles are the user's effective ones, and
  -- the permissions are exactly those of the stored roles.
  pub record IsBacked (id : Text) (a : Authorization) : Type 0 where
    pub audience : audience_available s.policy id (clients.get_client id code_admin_audience) ≡ true
    pub effective : access_tenant_roles s w.user.id id ≡ ok a.roles
    pub roles : Roles
    pub roles_given : s.role_svc ≡ some roles
    pub granted : IsGranted s.policy roles id a.roles a

  -- What the loop keeps.
  pub record IsKept (found : Found) : Type 0 where
    pub distinct : is_nodup found.allowed ≡ true
    pub has_home : contains found.allowed w.home ≡ true
    pub active : (x : Text) → contains found.allowed x ≡ true → IsUp x
    pub size : w.dynamic ≡ true → length found.allowed ≤ 100
    pub authorized :
        (w.dynamic && not w.platform_federated) ≡ true
        → (x : Text) → contains found.allowed x ≡ true
        → teq x w.home ≡ false
        → (a : Authorization) × (find_authorization x found.authorizations ≡ some a)
    pub backed :
        (x : Text) (a : Authorization)
        → find_authorization x found.authorizations ≡ some a
        → IsBacked x a

  allow-IsKept :
      (id : Text) (found : Found) {found' : Found}
      → IsKept found
      → IsUp id
      → ((w.dynamic && not w.platform_federated) ≡ true
          → teq id w.home ≡ false
          → (a : Authorization) × (find_authorization id found.authorizations ≡ some a))
      → allow w id found ≡ ok found'
      → IsKept found'
  unfolding allow
  allow-IsKept id found {found'} k up authorized h =
      let same : record found { allowed = add id found.allowed } ≡ found' = ground (arith, h) in
      rw (← same) (record {
        distinct = add-is_nodup id found.allowed k.distinct;
        has_home = ground (arith, contains-add id found.allowed w.home, k.has_home);
        active = λ x c. elim (Bool-cases (teq id x)) [
          | inl e ↦ rw (teq_sound id x e) at up
          | inr n ↦ k.active x (ground (arith, contains-add id found.allowed x, c, n))
        ];
        size = λ d. ground (arith, h, d);
        authorized = λ d x c n. elim (Bool-cases (teq id x)) [
          | inl e ↦ rw (← teq_sound id x e) (authorized d (rw (teq_sound id x e) n))
          | inr other ↦
              k.authorized d x (ground (arith, contains-add id found.allowed x, c, other)) n
        ];
        backed = k.backed;
      })

  extend-IsKept :
      (id : Text) (a : Authorization) (n : ℕ) (found : Found)
      → IsKept found
      → IsBacked id a
      → IsKept (record found { authorizations = (id, a) ∷ found.authorizations; lookups = n })
  unfolding find_authorization
  extend-IsKept id a n found k backed = record {
    distinct = k.distinct;
    has_home = k.has_home;
    active = k.active;
    size = k.size;
    authorized = λ d x c m. elim (Bool-cases (teq id x)) [
      | inl e ↦ (a, rw e)
      | inr other ↦ let (b, f) = k.authorized d x c m in (b, rw other f)
    ];
    backed = λ x b f. elim (Bool-cases (teq id x)) [
      | inl e ↦
          let same : a ≡ b = ground (arith, e, f) in
          subst₂ (λ y c. IsBacked y c) (teq_sound id x e) same backed
      | inr other ↦ k.backed x b (ground (arith, other, f))
    ];
  }

  count-IsKept : (n : ℕ) (found : Found) → IsKept found → IsKept (record found { lookups = n })
  count-IsKept n found k = record {
    distinct = k.distinct;
    has_home = k.has_home;
    active = k.active;
    size = k.size;
    authorized = k.authorized;
    backed = k.backed;
  }

  resolved-IsBacked :
      (id : Text) (roles : List Text) (svc : Option Roles) {a : Authorization}
      → s.role_svc ≡ svc
      → audience_available s.policy id (clients.get_client id code_admin_audience) ≡ true
      → access_tenant_roles s w.user.id id ≡ ok roles
      → resolve_membership_role_authorization s.policy svc id roles ≡ ok a
      → IsBacked id a
  resolved-IsBacked id roles none given audience effective h =
      unfold resolve_membership_role_authorization in absurd (ground (arith, h))
  resolved-IsBacked id roles (some svc) given audience effective h =
      let granted = resolve_membership-IsGranted s.policy svc id roles h in
      record {
        audience = audience;
        effective = effective ∙ ap ok (sym granted.names_kept);
        roles = svc;
        roles_given = given;
        granted = record {
          names_kept = refl;
          sorted = granted.sorted;
          exact = λ x. granted.exact x ∙ ap (λ l. granted_by svc id l x) (sym granted.names_kept);
        };
      }
    where
      granted_by : Roles → Text → List Text → Text → Bool
      granted_by svc id names x = Laws.granted s.policy svc id names x

  admit-IsKept :
      (id : Text) (roles : List Text) (found : Found) {found' : Found}
      → IsKept found
      → IsUp id
      → access_tenant_roles s w.user.id id ≡ ok roles
      → admit s repo clients w id roles found ≡ ok found'
      → IsKept found'
  unfolding admit record_authorization
  admit-IsKept id roles found {found'} k up effective h =
      elim (Bool-cases
        (audience_available s.policy id (clients.get_client id code_admin_audience))) [
          | inr missing ↦ let same : found ≡ found' = ground (arith, missing, h) in rw (← same) k
          | inl audience ↦
              answered (resolve_membership_role_authorization s.policy s.role_svc id roles) refl
                audience (ground (arith, audience, h))
        ]
    where
      answered :
          (r : Fallible Authorization)
          → resolve_membership_role_authorization s.policy s.role_svc id roles ≡ r
          → audience_available s.policy id (clients.get_client id code_admin_audience) ≡ true
          → record_authorization w id r (record found { lookups = found.lookups + length roles })
            ≡ ok found'
          → IsKept found'
      answered (err e) q audience g =
          let same : record found { lookups = found.lookups + length roles } ≡ found' =
            ground (arith, g) in
          rw (← same) (count-IsKept (found.lookups + length roles) found k)
      answered (ok a) q audience g =
          let backed = resolved-IsBacked id roles s.role_svc refl audience effective q in
          allow-IsKept id
            (record found {
              authorizations = (id, a) ∷ found.authorizations;
              lookups = found.lookups + length roles;
            })
            (extend-IsKept id a (found.lookups + length roles) found k backed) up
            (λ d m. (a, unfold find_authorization in rw (teq_refl id))) g

  admit_active-IsKept :
      (id : Text) (roles : List Text) (tenant : Option Tenant) (found : Found) {found' : Found}
      → IsKept found
      → repo.get id ≡ ok tenant
      → (w.platform_federated ≡ false → access_tenant_roles s w.user.id id ≡ ok roles)
      → admit_active s repo clients w id roles tenant found ≡ ok found'
      → IsKept found'
  unfolding admit_active
  admit_active-IsKept id roles tenant found {found'} k stored effective h =
      elim (Bool-cases (tenant_is_active id tenant)) [
        | inr down ↦ let same : found ≡ found' = ground (arith, down, h) in rw (← same) k
        | inl up ↦
            elim (Bool-cases (
              w.dynamic
              && not w.platform_federated
              && (not (teq id w.home) || w.directory_principal))) [
                | inl outside ↦
                    admit-IsKept id roles found k (tenant, stored, up)
                      (effective (ground (arith, outside))) (ground (arith, up, outside, h))
                | inr inside ↦
                    allow-IsKept id found k (tenant, stored, up)
                      (λ d m. absurd (ground (arith, inside, d, m))) (ground (arith, up, inside, h))
              ]
      ]

  visit-IsKept :
      (id : Text) (found : Found) {found' : Found}
      → IsKept found
      → visit s repo clients w id found ≡ ok found'
      → IsKept found'
  unfolding visit walk_roles
  visit-IsKept id found {found'} k h =
      elim (Bool-cases (not w.dynamic && not (contains s.tenant_scoped_token_allowlist id))) [
        | inl outside ↦ let same : found ≡ found' = ground (arith, outside, h) in rw (← same) k
        | inr inside ↦
            let h0 = rw inside at h in
            let (roles, read, h1) = >>=-eq-ok (walk_roles s repo clients w id) _ h0 in
            let (budget, h2) =
              check-eq-ok (not (w.dynamic && ltb 100 (length roles))) invalid_tenant _ h1 in
            let (tenant, got, h3) = >>=-eq-ok (or_else invalid_tenant (repo.get id)) _ h2 in
            admit_active-IsKept id roles tenant found k
              (or_else-eq-ok invalid_tenant (repo.get id) got)
              (λ local.
                or_else-eq-ok invalid_tenant (access_tenant_roles s w.user.id id)
                  (ground (arith, local, read)))
              h3
      ]

  pub visit_all-IsKept :
      (ids : List Text) (found : Found) {found' : Found}
      → IsKept found
      → visit_all s repo clients w ids found ≡ ok found'
      → IsKept found'
  unfolding visit_all
  visit_all-IsKept [] found {found'} k h = let same : found ≡ found' = ground arith in rw (← same) k
  visit_all-IsKept (id ∷ ids) found k h =
      let (mid, first, later) = >>=-eq-ok (visit s repo clients w id found) _ h in
      visit_all-IsKept ids mid (visit-IsKept id found k first) later

  pub first-IsKept :
      IsUp w.home → IsKept (record { allowed = w.home ∷ []; authorizations = []; lookups = 0 })
  unfolding is_nodup contains find_authorization
  first-IsKept up = record {
    distinct = refl;
    has_home = ground (arith, teq_refl w.home);
    active = λ x c. rw (teq_sound w.home x (ground (arith, c))) at up;
    size = λ d. omega arith;
    authorized = λ d x c n. absurd (ground (arith, c, n, teq_comm w.home x));
    backed = λ x a f. absurd (ground (arith, f));
  }
