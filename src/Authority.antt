-- ===== src/Authority.antt =====
-- internal/services/user_service.go and tenant_scoped_token.go: which authority a user record and the
-- signed role of its session carry. A variadic `platformPrivilege` that is left out is the empty text.
pub mod Laws
pub mod Tests
use tikti.Base.{
  ltb, leb, ◌==◌, if◌then◌else◌, ltb→lt, lt→ltb, leb→le, ==_iff, Bool-cases, Option-cases, bool_ext,
  &&_true, length, all, keep, length-append, length-keep-le, All, All-append, All-append_left,
  All-append_right, All-reverse, All-keep, All-map, All-of-all, all-of-All, Result, ok, err, ◌>>=◌,
  >>=-eq-ok, Text, codes, teq, tle, tlt, teq_sound, teq_refl, teq_iff, teq_comm, tle_refl,
  tle_total, tle_antisymm, tle_trans, has_prefix, is_empty, ℕ, zero, suc, ◌+◌, ◌-◌, ◌*◌, ◌/◌, ◌%◌,
  ◌^◌, ◌≤◌, ◌<◌, String, ◌≡◌, refl, sym, ap, ◌∙◌, ◌≡⟨◌⟩◌, ◌∎, ◌≢◌, ◌↔◌, ◌⊎◌, inl, inr, Bool, true,
  false, not, ◌&&◌, ◌||◌, Option, none, some, List, [], ◌∷◌, ◌++◌, map, reverse, arith,
  is_empty_congr, same_texts, same_texts_iff, contains, is_nodup, contains-append, contains-keep,
  All-contains, All-of_contains, subset, contains-subset, insert, sort, IsSorted, IsStrict,
  contains-insert, contains-sort, All-insert, All-sort, length-insert, length-sort, sort-IsSorted,
  sort-IsStrict, sort_of_IsSorted, IsStrict-IsSorted, IsStrict-is_nodup, sort_of_IsStrict,
  IsStrict-ext, is_nodup-concat, contains_congr, add, add_all, contains-add, add-is_nodup,
  contains-add_all, add_all-is_nodup, IsFresh, IsFresh-nil, IsFresh-head, IsFresh-tail,
  IsFresh-cons, trim_space, trim_space_solid, IsSolid,
}
use tikti.Domain.{
  User, user_active, role_admin, role_company_admin, auth_source_saml, platform_tenant_admin_scope,
  platform_privilege_admin, master_tenant_id,
}
use tikti.Scope.{Policy, requires_home_authority}
use tikti.Role.{valid_role_tenant_id, valid_role_name}

abbrev pub tenant_feature_administration_scope : Text
tenant_feature_administration_scope = codes "code-admin:features:write"

abbrev pub tenant_identity_write_scope : Text
tenant_identity_write_scope = codes "code-admin:identity:write"

abbrev pub tenant_secret_read_scope : Text
tenant_secret_read_scope = codes "code-admin:secrets:read"

abbrev pub tenant_secret_write_scope : Text
tenant_secret_write_scope = codes "code-admin:secrets:write"

abbrev pub maximum_membership_roles : ℕ
maximum_membership_roles = 500

unfoldable pub is_active_user : Option User → Bool
is_active_user none = false
is_active_user (some user) = teq user.status user_active

-- A SAML administrator without the platform privilege counts as a company administrator.
unfoldable pub effective_user_role : Option User → Text → Text
effective_user_role none privilege = []
effective_user_role (some user) privilege =
    if teq user.auth_source auth_source_saml
      && teq user.role role_admin
      && not (teq privilege platform_privilege_admin)
    then role_company_admin
    else user.role

unfoldable pub issuable_platform_privilege : Option User → Text → Text
issuable_platform_privilege none requested = []
issuable_platform_privilege (some user) requested =
    if teq user.status user_active
      && teq user.auth_source auth_source_saml
      && teq user.role role_admin
      && teq requested platform_privilege_admin
    then platform_privilege_admin
    else []

-- user.CompanyId != nil && f(*user.CompanyId)
unfoldable pub company_is : (Text → Text) → Option User → Text → Bool
company_is f none home = false
company_is f (some user) home = elim user.company_id [
  | none ↦ false
  | some company ↦ teq (f company) home
]

unfoldable pub has_company : Option User → Bool
has_company none = false
has_company (some user) = elim user.company_id [ none ↦ false | some company ↦ true ]

unfoldable pub is_saml : Option User → Bool
is_saml none = false
is_saml (some user) = teq user.auth_source auth_source_saml

unfoldable pub has_external_subject : Option User → Bool
has_external_subject none = false
has_external_subject (some user) = not (is_empty (trim_space user.external_subject))

unfoldable pub is_tenant_local_federated_principal : Option User → Text → Bool
unfolding is_saml company_is has_external_subject
is_tenant_local_federated_principal user home =
    is_saml user && company_is trim_space user home && has_external_subject user

unfoldable pub is_stored_admin : Option User → Bool
is_stored_admin none = false
is_stored_admin (some user) = teq user.role role_admin

unfoldable pub trusted_federated_platform_principal : Option User → Text → Text → Bool
unfolding is_tenant_local_federated_principal is_stored_admin
trusted_federated_platform_principal user home platform_privilege =
    is_tenant_local_federated_principal user home
    && teq home master_tenant_id
    && is_stored_admin user
    && teq platform_privilege platform_privilege_admin

unfoldable pub valid_signed_home : Option User → Text → Text → Text → Bool
unfolding is_active_user company_is
valid_signed_home user home signed_role platform_privilege =
    is_active_user user
    && valid_role_tenant_id home
    && company_is (λ company. company) user home
    && teq signed_role (effective_user_role user platform_privilege)

unfoldable pub valid_directory_principal_home : Option User → Text → Text → Text → Bool
unfolding is_active_user has_company
valid_directory_principal_home user home signed_role platform_privilege =
    is_active_user user
    && not (has_company user)
    && valid_role_tenant_id home
    && teq signed_role (effective_user_role user platform_privilege)

-- The switch of homeAuthority on the effective role.
unfoldable pub role_authority : Text → List Text → List Text
role_authority role candidates =
    if teq role role_admin
    then candidates
    else if teq role role_company_admin
    then keep (λ scope. not (teq scope platform_tenant_admin_scope)) candidates
    else []

unfoldable pub home_authority : Option User → Text → List Text → Text → List Text
unfolding role_authority
home_authority none signed_role candidates platform_privilege = []
home_authority (some user) signed_role candidates platform_privilege =
    let role = effective_user_role (some user) platform_privilege in
    if not (teq signed_role role) then [] else role_authority role candidates

unfoldable pub home_global_authority : Policy → Option User → Text → List Text → Text → List Text
home_global_authority policy user signed_role candidates platform_privilege =
    keep
      (λ scope.
        requires_home_authority policy scope || teq scope tenant_feature_administration_scope)
      (home_authority user signed_role candidates platform_privilege)

-- The members of the first list that every other list holds, in the order of the first.
unfoldable pub intersect_scope_sets : List Text → List (List Text) → List Text
intersect_scope_sets result [] = result
intersect_scope_sets result (values ∷ others) =
    intersect_scope_sets (keep (contains values) result) others

-- index > 0 && out[index-1] == value, for some index of a sorted list
unfoldable pub has_repeat : List Text → Bool
has_repeat [] = false
has_repeat (x ∷ []) = false
has_repeat (x ∷ y ∷ rest) = teq x y || has_repeat (y ∷ rest)

unfoldable pub canonical_membership_roles : List Text → Option (List Text)
unfolding has_repeat
canonical_membership_roles values =
    if ltb (length values) 1 || ltb maximum_membership_roles (length values)
    then none
    else if all valid_role_name (sort values) && not (has_repeat (sort values))
    then some (sort values)
    else none
