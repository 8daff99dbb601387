-- ===== src/Authority/Laws.antt =====
-- What the role of a session can and cannot claim.
use tikti.Base.{
  length, all, keep, All, All-map, All-of-all, Text, teq, tlt, teq_sound, teq_iff, tle_total,
  tle_antisymm, tle_trans, ◌≤◌, ◌≡◌, ◌⊎◌, true, false, not, ◌&&◌, ◌||◌, Option, none, some, List,
  [], ◌∷◌, arith, contains, contains-keep, sort, IsSorted, IsStrict, contains-sort, length-sort,
  sort-IsSorted,
}
use tikti.Domain.{User, role_admin, role_company_admin, platform_tenant_admin_scope}
use tikti.Scope.{Policy, requires_home_authority}
use tikti.Role.{valid_role_name}
use tikti.Authority.{
  effective_user_role, home_authority, role_authority, home_global_authority, intersect_scope_sets,
  tenant_feature_administration_scope, has_repeat, canonical_membership_roles,
}

-- A scope is in the intersection exactly when it is in the first list and in all the others.
pub contains-intersect_scope_sets :
    (first : List Text) (others : List (List Text)) (x : Text)
    → contains (intersect_scope_sets first others) x
      ≡ (contains first x && all (λ values. contains values x) others)
unfolding intersect_scope_sets
contains-intersect_scope_sets first [] x = ground arith
contains-intersect_scope_sets first (values ∷ others) x = ground (
  arith,
  contains-intersect_scope_sets (keep (contains values) first) others x,
  contains-keep (contains values) first x,
)

role_authority_bounded :
    (role : Text) (candidates : List Text) (x : Text)
    → contains (role_authority role candidates) x ≡ true
    → (contains candidates x ≡ true)
      × ((role ≡ role_admin)
          ⊎ ((role ≡ role_company_admin) × (teq x platform_tenant_admin_scope ≡ false)))
unfolding role_authority contains
role_authority_bounded role candidates x h = ground (
  arith,
  teq_iff role role_admin,
  teq_iff role role_company_admin,
  contains-keep (λ scope. not (teq scope platform_tenant_admin_scope)) candidates x,
)

-- Home authority is part of the candidates; there is some only where the signed role is the effective
-- one, and either that is ADMIN, or it is COMPANY_ADMIN and the scope is not the platform's.
pub home_authority_bounded :
    (user : Option User) (signed_role : Text) (candidates : List Text) (privilege x : Text)
    → contains (home_authority user signed_role candidates privilege) x ≡ true
    → (contains candidates x ≡ true)
      × (signed_role ≡ effective_user_role user privilege)
      × ((effective_user_role user privilege ≡ role_admin)
          ⊎ ((effective_user_role user privilege ≡ role_company_admin)
              × (teq x platform_tenant_admin_scope ≡ false)))
unfolding home_authority contains
home_authority_bounded none signed_role candidates privilege x h = cc
home_authority_bounded (some user) signed_role candidates privilege x h =
    let role = effective_user_role (some user) privilege in
    let signed : teq signed_role role ≡ true = ground arith in
    let granted : contains (role_authority role candidates) x ≡ true = ground arith in
    let (candidate, kind) = role_authority_bounded role candidates x granted in
    (candidate, teq_sound signed_role role signed, kind)

-- What homeGlobalAuthority keeps of the home authority.
pub home_global_authority_bounded :
    (policy : Policy) (user : Option User) (signed_role : Text) (candidates : List Text)
    (privilege x : Text)
    → contains (home_global_authority policy user signed_role candidates privilege) x ≡ true
    → (contains (home_authority user signed_role candidates privilege) x ≡ true)
      × ((requires_home_authority policy x || teq x tenant_feature_administration_scope) ≡ true)
unfolding home_global_authority
home_global_authority_bounded policy user signed_role candidates privilege x h = ground (
  arith,
  contains-keep
      (λ scope.
        requires_home_authority policy scope || teq scope tenant_feature_administration_scope)
      (home_authority user signed_role candidates privilege) x,
)

pub no_repeat-IsStrict : (xs : List Text) → IsSorted xs → has_repeat xs ≡ false → IsStrict xs
unfolding has_repeat
no_repeat-IsStrict [] s h = tt
no_repeat-IsStrict (x ∷ []) s h = (tt, tt)
no_repeat-IsStrict (x ∷ y ∷ ys) s h =
    let later = no_repeat-IsStrict (y ∷ ys) s.1 (ground arith) in
    let head : tlt x y ≡ true = ground (arith, h, s.0.0, tle_antisymm x y, teq_iff x y) in
    ((head, All-map _ _ (λ z k. below z k head) ys later.0), later)
  where
    below : (z : Text) → tlt y z ≡ true → tlt x y ≡ true → tlt x z ≡ true
    below z k head = ground (arith, k, head, tle_trans z x y, tle_total y x)

-- Membership roles that are accepted are the given ones, sorted, each once, at most 500, every name
-- valid.
pub canonical_membership_roles_canonical :
    (values : List Text) {roles : List Text}
    → canonical_membership_roles values ≡ some roles
    → IsStrict roles
      × ((x : Text) → contains roles x ≡ contains values x)
      × All (λ name. valid_role_name name ≡ true) roles
      × (length roles ≤ 500)
unfolding canonical_membership_roles
canonical_membership_roles_canonical values {roles} h =
    let same : roles ≡ sort values = ground arith in
    rw same (
      no_repeat-IsStrict (sort values) (sort-IsSorted values) (ground arith),
      contains-sort values,
      All-of-all valid_role_name (sort values) (ground arith),
      ground (arith, h, length-sort values),
    )
