-- ===== src/Targeting/Members.antt =====
-- The authority of a session outside its home, scope by scope, and the platform scope.
use tikti.Base.{
  List, Text, Bool-cases, keep, All, All-append, All-keep, ok, err, teq, ◌≡◌, ap, ◌⊎◌, inl, inr,
  Bool, true, ◌&&◌, ◌||◌, none, some, [], ◌∷◌, ◌++◌, arith, contains, contains-append,
  contains-keep, All-contains, All-of_contains,
}
use tikti.Scope.{Policy, tenant_role_assignable}
use tikti.Scope.Audience.{trimmed_valid}
use tikti.Scope.Permissions.{valid_canonical_permissions_iff}
use tikti.Role.Laws.{normalize_permissions_canonical}
use tikti.Authority.{home_global_authority, tenant_secret_read_scope, tenant_secret_write_scope}
use tikti.Authority.Laws.{home_authority_bounded, home_global_authority_bounded}
use tikti.Access.{Service, Roles, Authorization}
use tikti.Access.Laws.{granted, holds}
use tikti.Targeting.{Session, secret_candidates, global_candidates, member_authority}
use tikti.Targeting.Bounds.{IsValid}

holds-IsValid :
    (policy : Policy) (name : Text) (answer : _) (x : Text)
    → holds policy name answer x ≡ true
    → IsValid x
unfolding holds
holds-IsValid policy name (err e) x h = cc
holds-IsValid policy name (ok none) x h = cc
holds-IsValid policy name (ok (some role)) x h =
    let canonical =
      (valid_canonical_permissions_iff policy role.permissions).0 (ground (arith, h)) in
    (All-contains _ role.permissions x canonical.3 (ground (arith, h))).0

pub granted-IsValid :
    (policy : Policy) (roles : Roles) (tenant_id : Text) (names : List Text) (x : Text)
    → granted policy roles tenant_id names x ≡ true
    → IsValid x
unfolding granted
granted-IsValid policy roles tenant_id [] x h = cc
granted-IsValid policy roles tenant_id (name ∷ names) x h =
    elim (Bool-cases (holds policy name (roles.get_by_name tenant_id name) x)) [
      | inl here ↦ holds-IsValid policy name (roles.get_by_name tenant_id name) x here
      | inr later ↦ granted-IsValid policy roles tenant_id names x (ground (arith, h, later))
    ]

unfoldable pub is_secret : Text → Bool
is_secret x = teq x tenant_secret_read_scope || teq x tenant_secret_write_scope

module _ (to_lower : Text → Text) (s : Service) (session : Session) where
  contains-secret_candidates :
      (legacy : Bool) (candidates : List Text) (x : Text)
      → contains (secret_candidates to_lower s legacy candidates) x
        ≡ (legacy && contains candidates x && is_secret x)
  unfolding secret_candidates is_secret contains
  contains-secret_candidates legacy candidates x = ground (
    arith,
    contains-keep (λ c. teq c tenant_secret_read_scope || teq c tenant_secret_write_scope)
        candidates x,
  )

  pub global_candidates_bounded :
      (candidates : List Text) (x : Text)
      → contains (global_candidates to_lower s session candidates) x ≡ true
      → contains
          (home_global_authority s.policy
            (some session.user)
            session.signed_role
            candidates
            session.platform_privilege)
          x
        ≡ true
  unfolding global_candidates contains
  global_candidates_bounded candidates x h = ground (arith, h)

  -- Where the candidates and the authorization's permissions are well formed, a scope of the authority
  -- outside the home is a permission of the authorization that tenant roles may carry, or one of the
  -- two secret scopes among the candidates, for a legacy creator role, or a scope that the home gives
  -- everywhere.
  pub member_authority_origin :
      (candidates : List Text) (a : Authorization) (x : Text)
      → All IsValid candidates
      → All IsValid a.permissions
      → contains (member_authority to_lower s session candidates a) x ≡ true
      → ((contains a.permissions x && tenant_role_assignable s.policy x) ≡ true)
        ⊎ (((a.legacy_creator_administrator && contains candidates x && is_secret x) ≡ true)
            ⊎ (contains (global_candidates to_lower s session candidates) x ≡ true))
  unfolding member_authority
  member_authority_origin candidates a x v w h =
      let assignable = keep (tenant_role_assignable s.policy) a.permissions in
      let secrets = secret_candidates to_lower s a.legacy_creator_administrator candidates in
      let global = global_candidates to_lower s session candidates in
      let valid_secrets : All IsValid secrets = All-of_contains IsValid secrets λ z c.
        All-contains IsValid candidates z v (
          ground
            (arith, c, contains-secret_candidates a.legacy_creator_administrator candidates z)) in
      let valid_global : All IsValid global = All-of_contains IsValid global λ z c.
        All-contains IsValid candidates z v (
          (home_authority_bounded (some session.user) session.signed_role candidates
            session.platform_privilege z
            (home_global_authority_bounded s.policy (some session.user) session.signed_role
              candidates session.platform_privilege z
              (global_candidates_bounded candidates z c)).0).0) in
      let plain = trimmed_valid ((assignable ++ secrets) ++ global) (
        All-append IsValid (assignable ++ secrets) global
          (All-append IsValid assignable secrets
            (All-keep IsValid (tenant_role_assignable s.policy) a.permissions w) valid_secrets)
          valid_global) in
      ground (
        arith,
        h,
        (normalize_permissions_canonical ((assignable ++ secrets) ++ global)).1 x,
        ap (λ l. contains l x) plain,
        contains-append (assignable ++ secrets) global x,
        contains-append assignable secrets x,
        contains-keep (tenant_role_assignable s.policy) a.permissions x,
        contains-secret_candidates a.legacy_creator_administrator candidates x,
      )
