-- ===== src/Session.antt =====
-- internal/services/user_service.go: the claims of signed tokens, and the tests on them that read no
-- repository. A claim is a JSON value as the JWT library decodes it.
pub mod Current
pub mod Tests
use tikti.Base.{
  ltb, leb, ◌==◌, if◌then◌else◌, ltb→lt, lt→ltb, leb→le, ==_iff, Bool-cases, Option-cases, bool_ext,
  &&_true, length, all, keep, length-append, length-keep-le, All, All-append, All-append_left,
  All-append_right, All-reverse, All-keep, All-map, All-of-all, all-of-All, Result, ok, err, ◌>>=◌,
  >>=-eq-ok, Text, codes, teq, tle, tlt, teq_sound, teq_refl, teq_iff, teq_comm, tle_refl,
  tle_total, tle_antisymm, tle_trans, has_prefix, is_empty, ℕ, zero, suc, ◌+◌, ◌-◌, ◌*◌, ◌/◌, ◌%◌,
  ◌^◌, ◌≤◌, ◌<◌, String, ◌≡◌, refl, sym, ap, ◌∙◌, ◌≡⟨◌⟩◌, ◌∎, ◌≢◌, ◌↔◌, ◌⊎◌, inl, inr, Bool, true,
  false, not, ◌&&◌, ◌||◌, Option, none, some, List, [], ◌∷◌, ◌++◌, map, reverse, arith,
  is_empty_congr, same_texts, same_texts_iff, contains, is_nodup, contains-append, contains-keep,
  All-contains, All-of_contains, subset, contains-subset, insert, sort, IsSorted, IsStrict,
  contains-insert, contains-sort, All-insert, All-sort, length-insert, length-sort, sort-IsSorted,
  sort-IsStrict, sort_of_IsSorted, IsStrict-IsSorted, IsStrict-is_nodup, sort_of_IsStrict,
  IsStrict-ext, is_nodup-concat, contains_congr, add, add_all, contains-add, add-is_nodup,
  contains-add_all, add_all-is_nodup, IsFresh, IsFresh-nil, IsFresh-head, IsFresh-tail,
  IsFresh-cons, trim_space, trim_space_solid, IsSolid,
}
use tikti.Domain.{
  Error, Fallible, User, role_admin, auth_source_saml, platform_privilege_admin, master_tenant_id,
}
use tikti.Authority.{issuable_platform_privilege, canonical_membership_roles}

-- `whole` and `fraction` are the numbers that are not negative, a fraction by its whole part; the
-- items of an array that are no strings are `none`. `texts` is a Go slice of strings.
pub data ClaimValue : Type 0 where
  null negative other : ClaimValue
  text : Text → ClaimValue
  whole fraction : ℕ → ClaimValue
  items : List (Option Text) → ClaimValue
  texts : List Text → ClaimValue

abbrev pub Claims : Type 0
Claims = List (Text × ClaimValue)

-- claims[key]
unfoldable pub claim : Claims → Text → Option ClaimValue
claim [] key = none
claim ((k, v) ∷ rest) key = if teq k key then some v else claim rest key

unfoldable pub string_of : Option ClaimValue → Text
string_of (some (text s)) = s
string_of _ = []

-- claimStringValue
unfoldable pub claim_string_value : Claims → Text → Text
unfolding claim string_of
claim_string_value claims key = string_of (claim claims key)

abbrev pub iss : Text
iss = codes "iss"

abbrev pub aud : Text
aud = codes "aud"

abbrev pub sub : Text
sub = codes "sub"

abbrev pub user_id_claim : Text
user_id_claim = codes "userId"

abbrev pub email_claim : Text
email_claim = codes "email"

abbrev pub role_claim : Text
role_claim = codes "role"

abbrev pub roles_claim : Text
roles_claim = codes "roles"

abbrev pub tid : Text
tid = codes "tid"

abbrev pub principal_tid : Text
principal_tid = codes "principal_tid"

abbrev pub ver : Text
ver = codes "ver"

abbrev pub exp_claim : Text
exp_claim = codes "exp"

abbrev pub iat : Text
iat = codes "iat"

abbrev pub jti : Text
jti = codes "jti"

abbrev pub scope_claim : Text
scope_claim = codes "scope"

abbrev pub amr : Text
amr = codes "amr"

abbrev pub event_types_claim : Text
event_types_claim = codes "eventTypes"

abbrev pub platform_privilege_claim : Text
platform_privilege_claim = codes "tikti_platform_privilege"

abbrev pub platform_authority_origin_claim : Text
platform_authority_origin_claim = codes "tikti_platform_authority_origin"

abbrev pub platform_authority_origin_saml : Text
platform_authority_origin_saml = codes "saml-allowlist-v1"

-- tokenVersion
unfoldable pub version_of : Option ClaimValue → Option ℕ
version_of (some (whole version)) = if ltb (2 ^ 31) version then none else some version
version_of _ = none

unfoldable pub token_version : Claims → Option ℕ
unfolding claim version_of
token_version claims = version_of (claim claims ver)

unfoldable pub is_item : Text → Option Text → Bool
is_item audience none = false
is_item audience (some value) = teq value audience

unfoldable pub some_item : Text → List (Option Text) → Bool
unfolding is_item
some_item audience [] = false
some_item audience (value ∷ rest) = is_item audience value || some_item audience rest

unfoldable pub names_audience : Option ClaimValue → Text → Bool
unfolding some_item
names_audience (some (text value)) audience = teq value audience
names_audience (some (items values)) audience = some_item audience values
names_audience (some (texts values)) audience = contains values audience
names_audience _ audience = false

-- tokenHasAudience
unfoldable pub token_has_audience : Claims → Text → Bool
unfolding names_audience claim
token_has_audience claims audience =
    if is_empty (trim_space audience) then true else names_audience (claim claims aud) audience

-- The strings of an array, where all its items are strings.
unfoldable pub strings : List (Option Text) → Option (List Text)
strings [] = some []
strings (none ∷ rest) = none
strings (some s ∷ rest) = elim (strings rest) [ none ↦ none | some later ↦ some (s ∷ later) ]

unfoldable pub list_of : ClaimValue → Option (List Text)
unfolding strings
list_of (items values) = strings values
list_of (texts values) = some values
list_of _ = none

unfoldable pub if_same : List Text → Option (List Text) → Option (List Text)
if_same roles none = none
if_same roles (some canonical) = if same_texts roles canonical then some canonical else none

unfoldable pub canonical_roles_of : Option (List Text) → Option (List Text)
unfolding if_same
canonical_roles_of none = none
canonical_roles_of (some roles) = if_same roles (canonical_membership_roles roles)

-- canonicalAccessTokenRoles
unfoldable pub canonical_access_token_roles : ClaimValue → Option (List Text)
unfolding canonical_roles_of list_of
canonical_access_token_roles raw = canonical_roles_of (list_of raw)

-- The loop of canonicalAuthenticationMethods; `out` holds what `seen` holds.
module _ (to_lower : Text → Text) where
  unfoldable pub collect_methods : List Text → List Text → Option (List Text)
  collect_methods out [] = some out
  collect_methods out (raw ∷ rest) =
      let value = to_lower (trim_space raw) in
      let later = collect_methods (if contains out value then out else out ++ value ∷ []) rest in
      if is_empty value || ltb 64 (length value) then none else later

  unfoldable pub sorted_methods : Option (List Text) → Option (List Text)
  sorted_methods none = none
  sorted_methods (some out) = if ltb 0 (length out) then some (sort out) else none

  unfoldable pub methods_of : Option (List Text) → Option (List Text)
  unfolding collect_methods sorted_methods
  methods_of none = none
  methods_of (some values) =
      if (length values == 0) || ltb 16 (length values)
      then none
      else sorted_methods (collect_methods [] values)

  -- canonicalAuthenticationMethods; an absent claim is the empty list.
  unfoldable pub canonical_authentication_methods : Claims → Option (List Text)
  unfolding claim methods_of list_of
  canonical_authentication_methods claims = elim (claim claims amr) [
    | none ↦ some []
    | some raw ↦ methods_of (list_of raw)
  ]

  -- currentPlatformAdministratorKey
  unfoldable pub current_platform_administrator_key : Text → Text → Text
  current_platform_administrator_key tenant_id email =
      let tenant = trim_space tenant_id in
      let address = to_lower (trim_space email) in
      if is_empty tenant || is_empty address then [] else tenant ++ 0 ∷ address

unfoldable pub company : User → Text
company user = elim user.company_id [ none ↦ [] | some c ↦ trim_space c ]

unfoldable pub is_company : User → Bool
is_company user = elim user.company_id [ none ↦ false | some c ↦ true ]

unfoldable pub same_version : Option ℕ → ℕ → Bool
same_version none current = false
same_version (some version) current = version == current

-- validatedPlatformPrivilege
unfoldable pub validated_platform_privilege : User → Claims → Text
unfolding claim_string_value company is_company same_version token_version
validated_platform_privilege user claims =
    if is_empty (
        issuable_platform_privilege (some user)
          (claim_string_value claims platform_privilege_claim))
      || not (teq (claim_string_value claims role_claim) role_admin)
      || not (is_company user)
      || not (teq (claim_string_value claims tid) (company user))
      || not (same_version (token_version claims) user.token_version)
    then []
    else platform_privilege_admin

-- recoveredMasterPlatformClaims
unfoldable pub recovered_master_platform_claims : Claims → List Text → Bool
unfolding claim_string_value
recovered_master_platform_claims claims signed_roles =
    teq (claim_string_value claims tid) master_tenant_id
    && teq (claim_string_value claims principal_tid) master_tenant_id
    && teq (claim_string_value claims role_claim) role_admin
    && teq (claim_string_value claims platform_privilege_claim) platform_privilege_admin
    && contains signed_roles role_admin
