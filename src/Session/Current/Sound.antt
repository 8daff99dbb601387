-- ===== src/Session/Current/Sound.antt =====
-- internal/services/user_service.go: what the validation of a session says of the stored records.
use tikti.Base.{
  Option, ==_iff, Bool-cases, ok, >>=-eq-ok, Text, teq, teq_sound, is_empty, ℕ, ◌≡◌, refl, ap, ◌≢◌,
  ◌⊎◌, inl, inr, true, false, not, ◌&&◌, none, some, [], arith, contains, trim_space,
}
use tikti.Domain.{User, user_active, role_admin, auth_source_saml, invalid_token}
use tikti.Access.Scoped.{check-eq-ok}
use tikti.Identity.{Letters}
use tikti.Session.{
  Claims, claim_string_value, sub, email_claim, tid, iss, token_version, token_has_audience,
  platform_privilege_claim, platform_authority_origin_claim, same_version,
  current_platform_administrator_key,
}
use tikti.Session.Current.{
  Jwt, Users, UserService, not_expired, unexpired_claims, parse_token, resolve_user,
  resolve_current_token_user, federated_home_valid, signed_tenant_active,
  current_platform_authority_valid, usable, signed_issuer_valid, current_user,
  validate_current_id_token,
}
use tikti.Session.Current.Facts.{
  IsBound, IsLive, IsAddressed, IsHome, IsStoredActive, resolve_user-eq-ok, not_expired-IsLive,
  is_empty-eq-nil, token_has_audience-IsAddressed, signed_tenant_active-IsStoredActive,
  federated_home_valid-IsHome,
}
use tikti.Session.Current.Backing.{IsBacked, current_platform_authority_valid-IsBacked}

-- What the stored records say of a session that is valid.
pub record IsCurrent (s : UserService) (claims : Claims) (user : User) : Type 0 where
  pub bound :
      IsBound s.letters s.users s.users.find_by_id
        (claim_string_value claims sub)
        (claim_string_value claims email_claim)
        user
  pub same_email : s.letters.equal_fold user.email (claim_string_value claims email_claim) ≡ true
  pub home :
      (s.users.find_by_id ≡ none)
      ⊎ ((user.auth_source ≢ auth_source_saml)
          ⊎ IsHome user.company_id (claim_string_value claims tid))
  pub tenant :
      (claim_string_value claims tid ≡ [])
      ⊎ IsStoredActive s.access.tenant_repo (claim_string_value claims tid)
  pub active : user.status ≡ user_active
  pub rotated : user.password_change_required ≡ false
  pub authority :
      IsBacked s user
        (claim_string_value claims platform_privilege_claim)
        (claim_string_value claims platform_authority_origin_claim)
  pub version : token_version claims ≡ some user.token_version

same_version-eq : (o : Option ℕ) (current : ℕ) → same_version o current ≡ true → o ≡ some current
unfolding same_version
same_version-eq none current h = absurd (ground (arith, h))
same_version-eq (some v) current h = ap some (ground (arith, h, ==_iff v current))

usable-eq-ok :
    (user : User) {u : Unit {0}}
    → usable user ≡ ok u
    → (user.status ≡ user_active) × (user.password_change_required ≡ false)
unfolding usable
usable-eq-ok user h = (teq_sound user.status user_active (ground (arith, h)), ground (arith, h))

resolve_current-eq-ok :
    (l : Letters) (users : Users) (subject email : Text) {user : User}
    → resolve_current_token_user l users subject email ≡ ok user
    → resolve_user l users users.find_by_id subject email ≡ ok user
unfolding resolve_current_token_user
resolve_current-eq-ok l users subject email h = ground (arith, h)

pub current_user-IsCurrent :
    (s : UserService) (claims : Claims) {user : User}
    → current_user s claims ≡ ok user
    → IsCurrent s claims user
unfolding current_user
current_user-IsCurrent s claims {user} h =
    let subject = claim_string_value claims sub in
    let email = claim_string_value claims email_claim in
    let (u, read, h1) =
      >>=-eq-ok (resolve_current_token_user s.letters s.users subject email) _ h in
    let (signed, h2) =
      check-eq-ok
        (federated_home_valid s.users u claims
          && signed_tenant_active s.access.tenant_repo (claim_string_value claims tid))
        invalid_token _ h1 in
    let (unit, state, h3) = >>=-eq-ok (usable u) _ h2 in
    let (current, done) =
      check-eq-ok
        (current_platform_authority_valid s u claims
          && same_version (token_version claims) u.token_version)
        invalid_token _ h3 in
    let same : u ≡ user = ground (arith, done) in
    let (bound, address) =
      resolve_user-eq-ok s.letters s.users s.users.find_by_id subject email
        (resolve_current-eq-ok s.letters s.users subject email read) in
    let (active, rotated) = usable-eq-ok u state in
    rw (← same) (record {
      bound = bound;
      same_email = address;
      home = federated_home_valid-IsHome s.users u claims (ground (arith, signed));
      tenant =
          signed_tenant_active-IsStoredActive s.access.tenant_repo (claim_string_value claims tid)
            (ground (arith, signed));
      active = active;
      rotated = rotated;
      authority = current_platform_authority_valid-IsBacked s u claims (ground (arith, current));
      version = same_version-eq (token_version claims) u.token_version (ground (arith, current));
    })

unexpired-eq-ok :
    (jwt : Jwt) (now : ℕ) (o : Option Claims) {claims : Claims}
    → unexpired_claims jwt now o ≡ ok claims
    → (o ≡ some claims) × (not_expired (jwt.expiration claims) now ≡ true)
unfolding unexpired_claims
unexpired-eq-ok jwt now none h = cc
unexpired-eq-ok jwt now (some c) {claims} h =
    let live : not_expired (jwt.expiration c) now ≡ true = ground (arith, h) in
    let same : c ≡ claims = ground (arith, h, live) in rw (← same) (refl, live)

parse_token-eq-ok :
    (jwt : Jwt) (now : ℕ) (token secret : Text) {claims : Claims}
    → parse_token jwt now token secret ≡ ok claims
    → (jwt.parse_hs256 (trim_space token) secret now ≡ some claims)
      × (not_expired (jwt.expiration claims) now ≡ true)
unfolding parse_token
parse_token-eq-ok jwt now token secret h =
    unexpired-eq-ok jwt now (jwt.parse_hs256 (trim_space token) secret now) (ground (arith, h))

issuer_cases :
    (s : UserService) (issuer : Text) (claims : Claims)
    → signed_issuer_valid s issuer claims ≡ true
    → (issuer ≡ []) ⊎ (claim_string_value claims iss ≡ issuer)
unfolding signed_issuer_valid
issuer_cases s issuer claims h = elim (Bool-cases (is_empty issuer)) [
  | inl any ↦ inl (is_empty-eq-nil issuer any)
  | inr one ↦ inr (teq_sound (claim_string_value claims iss) issuer (ground (arith, h, one)))
]

-- Where a session validates, its signature is accepted, its `exp` claim is there and not past, and
-- the issuer and the audience that are asked for, where they are not empty, are those of its claims.
-- The user's e-mail is the signed one up to case, and the user is the one stored under the signed
-- subject, or, where the repository does not read by id, the one stored under the signed e-mail, with
-- the subject its id or its e-mail up to case. It is active, with no pending password change, and of
-- the signed token version. The signed tenant, where there is one and a tenant repository, is stored
-- and active; for a SAML user read by id it is its company, and there is none where it has none. A
-- signed platform privilege is that of a stored ADMIN, a signed authority origin that of a stored
-- SAML ADMIN, and every SAML ADMIN has a company and is on the allowlist, where one is configured.
pub validate_current_id_token-IsCurrent :
    (s : UserService) (now : ℕ) (token issuer audience : Text) {claims : Claims} {user : User}
    → validate_current_id_token s now token issuer audience ≡ ok (claims, user)
    → IsCurrent s claims user
      × (s.jwt.parse_hs256 (trim_space token) s.jwt_secret now ≡ some claims)
      × IsLive (s.jwt.expiration claims) now
      × ((issuer ≡ []) ⊎ (claim_string_value claims iss ≡ issuer))
      × IsAddressed claims audience
unfolding validate_current_id_token
validate_current_id_token-IsCurrent s now token issuer audience {claims} {user} h =
    let (c, parsed, h1) = >>=-eq-ok (parse_token s.jwt now token s.jwt_secret) _ h in
    let (addressed, h2) =
      check-eq-ok (signed_issuer_valid s issuer c && token_has_audience c audience) invalid_token _
        h1 in
    let (named, h3) =
      check-eq-ok
        (not (is_empty (trim_space (claim_string_value c sub)))
          && not (is_empty (trim_space (claim_string_value c email_claim))))
        invalid_token _ h2 in
    let (u, current, done) = >>=-eq-ok (current_user s c) _ h3 in
    let same_claims : c ≡ claims = ground (arith, done) in
    let same_user : u ≡ user = ground (arith, done) in
    let (accepted, live) = parse_token-eq-ok s.jwt now token s.jwt_secret parsed in
    rw (← same_claims, ← same_user)
      (
        current_user-IsCurrent s c current,
        accepted,
        not_expired-IsLive (s.jwt.expiration c) now live,
        issuer_cases s issuer c (ground (arith, addressed)),
        token_has_audience-IsAddressed c audience (ground (arith, addressed)),
      )

-- A SAML administrator whose company and e-mail the configured allowlist does not name has no valid
-- session, whatever its claims.
pub unlisted_administrator_has_no_session :
    (s : UserService) (now : ℕ) (token issuer audience : Text) {claims : Claims} {user : User}
    → s.platform_authority_configured ≡ true
    → (home : Text) → user.company_id ≡ some home
    → contains s.platform_administrators
        (current_platform_administrator_key s.letters.to_lower home user.email)
      ≡ false
    → teq user.role role_admin ≡ true
    → teq user.auth_source auth_source_saml ≡ true
    → validate_current_id_token s now token issuer audience ≢ ok (claims, user)
unlisted_administrator_has_no_session s now token issuer audience {claims} {user} configured home
      given unlisted admin saml h =
    let current = (validate_current_id_token-IsCurrent s now token issuer audience h).0 in
    elim current.authority.listed [
      | inl foreign ↦ absurd (foreign (teq_sound user.auth_source auth_source_saml saml))
      | inr (inl plain) ↦ absurd (plain (teq_sound user.role role_admin admin))
      | inr (inr (company, has, inl unset)) ↦ absurd (ground (arith, unset, configured))
      | inr (inr (company, has, inr allowed)) ↦
          let same : company ≡ home = ground (arith, has, given) in
          absurd (ground (arith, rw same at allowed, unlisted))
    ]
