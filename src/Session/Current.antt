-- ===== src/Session/Current.antt =====
-- internal/services/user_service.go and internal/utils: the validation of signed sessions against the
-- current records, and their issue. `now` is the time in nanoseconds, where Go reads the clock.
pub mod Facts
pub mod Backing
pub mod Sound
pub mod Issued
use tikti.Base.{
  ltb, leb, ◌==◌, if◌then◌else◌, ltb→lt, lt→ltb, leb→le, ==_iff, Bool-cases, Option-cases, bool_ext,
  &&_true, length, all, keep, length-append, length-keep-le, All, All-append, All-append_left,
  All-append_right, All-reverse, All-keep, All-map, All-of-all, all-of-All, Result, ok, err, ◌>>=◌,
  >>=-eq-ok, Text, codes, teq, tle, tlt, teq_sound, teq_refl, teq_iff, teq_comm, tle_refl,
  tle_total, tle_antisymm, tle_trans, has_prefix, is_empty, ℕ, zero, suc, ◌+◌, ◌-◌, ◌*◌, ◌/◌, ◌%◌,
  ◌^◌, ◌≤◌, ◌<◌, String, ◌≡◌, refl, sym, ap, ◌∙◌, ◌≡⟨◌⟩◌, ◌∎, ◌≢◌, ◌↔◌, ◌⊎◌, inl, inr, Bool, true,
  false, not, ◌&&◌, ◌||◌, Option, none, some, List, [], ◌∷◌, ◌++◌, map, reverse, arith,
  is_empty_congr, same_texts, same_texts_iff, contains, is_nodup, contains-append, contains-keep,
  All-contains, All-of_contains, subset, contains-subset, insert, sort, IsSorted, IsStrict,
  contains-insert, contains-sort, All-insert, All-sort, length-insert, length-sort, sort-IsSorted,
  sort-IsStrict, sort_of_IsSorted, IsStrict-IsSorted, IsStrict-is_nodup, sort_of_IsStrict,
  IsStrict-ext, is_nodup-concat, contains_congr, add, add_all, contains-add, add-is_nodup,
  contains-add_all, add_all-is_nodup, IsFresh, IsFresh-nil, IsFresh-head, IsFresh-tail,
  IsFresh-cons, trim_space, trim_space_solid, IsSolid,
}
use tikti.Domain.{
  Error, Fallible, User, Tenant, user_active, role_admin, auth_source_saml,
  platform_privilege_admin, retired_default_tenant_id, invalid_token, invalid_creds, not_found,
  password_change_required, invalid_argument, repository_failure,
}
use tikti.Authority.{issuable_platform_privilege, effective_user_role}
use tikti.Identity.{Letters}
use tikti.Access.{Service, TenantRepository, present, check, ◌>>◌, or_else, tenant_is_active}
use tikti.Session.{
  ClaimValue, text, whole, texts, Claims, claim_string_value, iss, aud, sub, user_id_claim,
  email_claim, role_claim, tid, ver, exp_claim, iat, amr, platform_privilege_claim,
  platform_authority_origin_claim, platform_authority_origin_saml, token_version,
  token_has_audience, current_platform_administrator_key, company, is_company, same_version,
}

-- github.com/golang-jwt/jwt: the claims of a well-signed token that the library accepts at a time,
-- the `exp` claim in seconds, and the signatures.
pub record RsaKey : Type 0 where
  pub parse_rs256 : Text → ℕ → Option Claims
  pub sign_rs256 : Claims → Fallible Text

pub record Jwt : Type 0 where
  pub parse_hs256 : Text → Text → ℕ → Option Claims
  pub sign_hs256 : Text → Claims → Fallible Text
  pub expiration : Claims → Option ℕ
  pub parse_rsa_private_key : Text → Fallible RsaKey

-- The reads of repository.UserRepository; `find_by_id` is there where it is a UserIDRepository.
pub record Users : Type 0 where
  pub find_by_id : Option (Text → Fallible (Option User))
  pub find_by_email : Text → Fallible (Option User)

-- The other fields of userService. The keys of the map of administrators are a list.
pub record UserService : Type 0 where
  pub access : Service
  pub users : Users
  pub letters : Letters
  pub jwt : Jwt
  pub jwt_secret : Text
  pub issuer_base_url : Text
  pub default_audience : Text
  pub jwks_private_key : Text
  pub platform_authority_configured : Bool
  pub platform_administrators : List Text

abbrev pub nanoseconds : ℕ
nanoseconds = 10 ^ 9

-- exp != nil && !exp.Time.Before(now)
unfoldable pub not_expired : Option ℕ → ℕ → Bool
not_expired none now = false
not_expired (some expiry) now = leb now (expiry * nanoseconds)

unfoldable pub unexpired_claims : Jwt → ℕ → Option Claims → Fallible Claims
unfolding not_expired
unexpired_claims jwt now none = err invalid_token
unexpired_claims jwt now (some claims) =
    if not_expired (jwt.expiration claims) now then ok claims else err invalid_token

-- ParseToken
unfoldable pub parse_token : Jwt → ℕ → Text → Text → Fallible Claims
unfolding unexpired_claims
parse_token jwt now token secret =
    if is_empty (trim_space token) || is_empty secret
    then err invalid_token
    else unexpired_claims jwt now (jwt.parse_hs256 (trim_space token) secret now)

-- The user that FindByID found, bound to both signed identifiers.
unfoldable pub bound_by_id : Letters → Text → Text → Option User → Fallible User
bound_by_id letters subject email none = err not_found
bound_by_id letters subject email (some user) =
    if not (teq user.id subject) || not (letters.equal_fold user.email email)
    then err invalid_token
    else ok user

unfoldable pub bound_by_email : Letters → Text → Text → Option User → Fallible User
bound_by_email letters subject email none = err not_found
bound_by_email letters subject email (some user) =
    if (not (teq subject user.id) && not (letters.equal_fold subject user.email))
      || not (letters.equal_fold user.email email)
    then err invalid_token
    else ok user

unfoldable pub resolve_user :
    Letters → Users → Option (Text → Fallible (Option User)) → Text → Text → Fallible User
unfolding bound_by_id bound_by_email or_else
resolve_user letters users none subject email =
    or_else invalid_token (users.find_by_email email) >>= bound_by_email letters subject email
resolve_user letters users (some find) subject email =
    or_else invalid_token (find subject) >>= bound_by_id letters subject email

-- resolveCurrentTokenUser
unfoldable pub resolve_current_token_user : Letters → Users → Text → Text → Fallible User
unfolding resolve_user
resolve_current_token_user letters users subject email =
    if is_empty (trim_space subject) || is_empty (trim_space email)
    then err invalid_token
    else resolve_user letters users users.find_by_id subject email

unfoldable pub subject_authoritative : Users → Bool
subject_authoritative users = elim users.find_by_id [ none ↦ false | some find ↦ true ]

-- The signed tenant of a SAML principal is its company, and none where it has no company.
unfoldable pub federated_home_valid : Users → User → Claims → Bool
unfolding subject_authoritative is_company company
federated_home_valid users user claims =
    if subject_authoritative users && teq user.auth_source auth_source_saml
    then if is_company user
      then teq (claim_string_value claims tid) (company user)
      else is_empty (claim_string_value claims tid)
    else true

-- tenantErr == nil && tenant != nil && tenant.Id == tenantID && tenant.Status == ACTIVE
unfoldable pub stored_active : Text → Fallible (Option Tenant) → Bool
stored_active tenant_id (err e) = false
stored_active tenant_id (ok tenant) = tenant_is_active tenant_id tenant

unfoldable pub current_tenant_active : Option TenantRepository → Text → Bool
unfolding stored_active
current_tenant_active none tenant_id = true
current_tenant_active (some repo) tenant_id = stored_active tenant_id (repo.get tenant_id)

unfoldable pub signed_tenant_active : Option TenantRepository → Text → Bool
unfolding current_tenant_active
signed_tenant_active repo tenant_id =
    if is_empty tenant_id then true else current_tenant_active repo tenant_id

-- The allowlist's part of currentPlatformAuthorityValid.
unfoldable pub allowlisted : UserService → User → Bool
allowlisted s user = elim user.company_id [
  | none ↦ false
  | some home ↦
      if not s.platform_authority_configured
      then true
      else contains s.platform_administrators
          (current_platform_administrator_key s.letters.to_lower home user.email)
]

-- currentPlatformAuthorityValid for a user that is there
unfoldable pub current_platform_authority_valid : UserService → User → Claims → Bool
unfolding allowlisted
current_platform_authority_valid s user claims =
    let privilege = claim_string_value claims platform_privilege_claim in
    let origin = claim_string_value claims platform_authority_origin_claim in
    if not (is_empty privilege) && not (teq privilege platform_privilege_admin)
    then false
    else if not (is_empty origin) && not (teq origin platform_authority_origin_saml)
    then false
    else if not (teq user.auth_source auth_source_saml)
    then is_empty origin && (is_empty privilege || teq user.role role_admin)
    else if not (teq user.role role_admin)
        && not (teq privilege platform_privilege_admin)
        && not (teq origin platform_authority_origin_saml)
    then true
    else teq user.role role_admin && allowlisted s user

-- The state of the record, in the order of the code's tests.
unfoldable pub usable : User → Fallible (Unit {0})
usable user = do
  check (teq user.status user_active) invalid_creds
  check (not user.password_change_required) password_change_required

module _ (s : UserService) where
  unfoldable pub signed_issuer_valid : Text → Claims → Bool
  signed_issuer_valid issuer claims =
      if is_empty issuer then true else teq (claim_string_value claims iss) issuer

  -- The part of validateCurrentIDToken that reads the current records.
  unfoldable pub current_user : Claims → Fallible User
  unfolding resolve_current_token_user federated_home_valid signed_tenant_active usable
      current_platform_authority_valid same_version token_version
  current_user claims = do
    user ←
        resolve_current_token_user s.letters s.users (claim_string_value claims sub)
          (claim_string_value claims email_claim)
    check
        (federated_home_valid s.users user claims
          && signed_tenant_active s.access.tenant_repo (claim_string_value claims tid))
        invalid_token
    usable user
    check
        (current_platform_authority_valid s user claims
          && same_version (token_version claims) user.token_version)
        invalid_token
    ok user

  -- validateCurrentIDToken
  unfoldable pub validate_current_id_token : ℕ → Text → Text → Text → Fallible (Claims × User)
  unfolding parse_token signed_issuer_valid token_has_audience current_user
  validate_current_id_token now token issuer audience = do
    claims ← parse_token s.jwt now token s.jwt_secret
    check (signed_issuer_valid issuer claims && token_has_audience claims audience) invalid_token
    check
        (not (is_empty (trim_space (claim_string_value claims sub)))
          && not (is_empty (trim_space (claim_string_value claims email_claim))))
        invalid_token
    user ← current_user claims
    ok (claims, user)

  -- ValidateIDToken
  unfoldable pub validate_id_token : ℕ → Text → Text → Text → Fallible Claims
  unfolding validate_current_id_token
  validate_id_token now token issuer audience = do
    (claims, user) ← validate_current_id_token now token issuer audience
    ok claims

  unfoldable pub tenant_entry : User → Claims
  unfolding company
  tenant_entry user =
      if is_empty (company user) || teq (company user) retired_default_tenant_id
      then []
      else (tid, text (company user)) ∷ []

  unfoldable pub methods_entry : List Text → Claims
  methods_entry [] = []
  methods_entry (m ∷ ms) = (amr, texts (m ∷ ms)) ∷ []

  unfoldable pub privilege_entry : Text → Claims
  privilege_entry privilege =
      if is_empty privilege then [] else (platform_privilege_claim, text privilege) ∷ []

  -- The claims of a session; the keys of the map that may be absent come last.
  unfoldable pub id_claims : User → List Text → Text → ℕ → ℕ → Claims
  unfolding tenant_entry methods_entry privilege_entry
  id_claims user methods privilege expires issued =
      (sub, text user.id)
      ∷ (user_id_claim, text user.id)
      ∷ (email_claim, text user.email)
      ∷ (role_claim, text (effective_user_role (some user) privilege))
      ∷ (iss, text s.issuer_base_url)
      ∷ (aud, text s.default_audience)
      ∷ (ver, whole user.token_version)
      ∷ (exp_claim, whole expires)
      ∷ (iat, whole issued)
      ∷ (tenant_entry user ++ (methods_entry methods ++ privilege_entry privilege))

  -- min(now + 1 h, absoluteExpiry) in seconds; `none` is the zero time.
  unfoldable pub expiry : Option ℕ → ℕ → ℕ
  expiry none now = (now + 3600 * nanoseconds) / nanoseconds
  expiry (some deadline) now =
      if ltb deadline (now + 3600 * nanoseconds)
      then deadline / nanoseconds
      else (now + 3600 * nanoseconds) / nanoseconds

  unfoldable pub sign_until : User → List Text → Text → ℕ → ℕ → Fallible (Text × ℕ)
  unfolding id_claims
  sign_until user methods privilege expires issued = do
    check (ltb issued expires) invalid_argument
    signed ← s.jwt.sign_hs256 s.jwt_secret (id_claims user methods privilege expires issued)
    ok (signed, expires - issued)

  -- issueIDTokenWithPlatformPrivilegeUntil for a user that is there
  unfoldable pub issue_id_token_until : ℕ → User → List Text → Text → Option ℕ → Fallible (Text × ℕ)
  unfolding sign_until expiry usable
  issue_id_token_until now user methods requested deadline = do
    usable user
    sign_until user methods (issuable_platform_privilege (some user) requested)
        (expiry deadline now) (now / nanoseconds)

  -- issueIDTokenWithPlatformPrivilege and issueIDToken
  unfoldable pub issue_id_token : ℕ → User → List Text → Text → Fallible (Text × ℕ)
  unfolding issue_id_token_until
  issue_id_token now user methods requested = issue_id_token_until now user methods requested none
