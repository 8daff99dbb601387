-- ===== src/Authority/Tests.antt =====
-- The theorems on authority and on lists of roles at small inputs.
use tikti.Base.{
  length, all, All, Text, teq, tle, has_prefix, is_empty, ◌≤◌, ◌≡◌, refl, ◌⊎◌, true, false, not,
  ◌&&◌, some, [], ◌∷◌, contains, sort, IsStrict,
}
use tikti.Targeting.Scenario.{acme, flags_read, claim, reader, policy, employee}
use tikti.Role.Laws.{normalize_permissions_canonical}
use tikti.Authority.Laws.{
  home_authority_bounded, canonical_membership_roles_canonical, contains-intersect_scope_sets,
}
use tikti.Domain.{User, role_admin, role_company_admin, platform_tenant_admin_scope}
use tikti.Scope.{requires_home_authority, valid_permission, is_reserved}
use tikti.Scope.Audience.{trimmed}
use tikti.Role.{valid_role_name, normalize_permissions}
use tikti.Authority.{
  role_authority, effective_user_role, home_authority, home_global_authority, intersect_scope_sets,
  canonical_membership_roles,
}

-- A company administrator outside its home.
abbrev administrator : User
administrator = record employee { role = role_company_admin }

home_run :
    contains (home_authority (some administrator) role_company_admin (claim ∷ []) []) claim ≡ true
unfolding home_authority role_authority effective_user_role teq contains
home_run = refl

home_authority_bounded_example :
    (contains (claim ∷ []) claim ≡ true)
    × (role_company_admin ≡ effective_user_role (some administrator) [])
    × ((effective_user_role (some administrator) [] ≡ role_admin)
        ⊎ ((effective_user_role (some administrator) [] ≡ role_company_admin)
            × (teq claim platform_tenant_admin_scope ≡ false)))
home_authority_bounded_example =
    home_authority_bounded (some administrator) role_company_admin (claim ∷ []) [] claim home_run

global_run :
    contains
      (home_global_authority policy (some administrator) role_company_admin (claim ∷ []) [])
      claim
    ≡ true
unfolding home_global_authority home_authority role_authority effective_user_role teq contains
    requires_home_authority valid_permission is_reserved has_prefix
global_run = refl

contains-intersect_scope_sets_example :
    contains (intersect_scope_sets (claim ∷ flags_read ∷ []) ((claim ∷ []) ∷ [])) claim ≡ (
      contains (claim ∷ flags_read ∷ []) claim
      && all (λ values. contains values claim) ((claim ∷ []) ∷ []))
contains-intersect_scope_sets_example =
    contains-intersect_scope_sets (claim ∷ flags_read ∷ []) ((claim ∷ []) ∷ []) claim

membership_roles_run : canonical_membership_roles (reader ∷ acme ∷ []) ≡ some (acme ∷ reader ∷ [])
unfolding canonical_membership_roles sort teq tle valid_role_name
membership_roles_run = refl

canonical_membership_roles_canonical_example :
    IsStrict (acme ∷ reader ∷ [])
    × ((x : Text) → contains (acme ∷ reader ∷ []) x ≡ contains (reader ∷ acme ∷ []) x)
    × All (λ name. valid_role_name name ≡ true) (acme ∷ reader ∷ [])
    × (length (acme ∷ reader ∷ []) ≤ 500)
canonical_membership_roles_canonical_example =
    canonical_membership_roles_canonical (reader ∷ acme ∷ []) membership_roles_run

normalize_permissions_canonical_example :
    IsStrict (normalize_permissions (reader ∷ acme ∷ reader ∷ []))
    × ((x : Text)
        → contains (normalize_permissions (reader ∷ acme ∷ reader ∷ [])) x
          ≡ (contains (trimmed (reader ∷ acme ∷ reader ∷ [])) x && not (is_empty x)))
normalize_permissions_canonical_example =
    normalize_permissions_canonical (reader ∷ acme ∷ reader ∷ [])
