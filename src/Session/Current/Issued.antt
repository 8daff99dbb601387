-- ===== src/Session/Current/Issued.antt =====
-- A session that issueIDToken has signed for a password user validates until it expires.
pub mod Fields
use tikti.Base.{
  Result, ltb, leb, ◌==◌, if◌then◌else◌, ltb→lt, lt→ltb, leb→le, ==_iff, Bool-cases, Option-cases,
  bool_ext, &&_true, length, all, keep, length-append, length-keep-le, All, All-append,
  All-append_left, All-append_right, All-reverse, All-keep, All-map, All-of-all, all-of-All, ok,
  err, ◌>>=◌, >>=-eq-ok, Text, codes, teq, tle, tlt, teq_sound, teq_refl, teq_iff, teq_comm,
  tle_refl, tle_total, tle_antisymm, tle_trans, has_prefix, is_empty, ℕ, zero, suc, ◌+◌, ◌-◌, ◌*◌,
  ◌/◌, ◌%◌, ◌^◌, ◌≤◌, ◌<◌, String, ◌≡◌, refl, sym, ap, ◌∙◌, ◌≡⟨◌⟩◌, ◌∎, ◌≢◌, ◌↔◌, ◌⊎◌, inl, inr,
  Bool, true, false, not, ◌&&◌, ◌||◌, Option, none, some, List, [], ◌∷◌, ◌++◌, map, reverse, arith,
  is_empty_congr, same_texts, same_texts_iff, contains, is_nodup, contains-append, contains-keep,
  All-contains, All-of_contains, subset, contains-subset, insert, sort, IsSorted, IsStrict,
  contains-insert, contains-sort, All-insert, All-sort, length-insert, length-sort, sort-IsSorted,
  sort-IsStrict, sort_of_IsSorted, IsStrict-IsSorted, IsStrict-is_nodup, sort_of_IsStrict,
  IsStrict-ext, is_nodup-concat, contains_congr, add, add_all, contains-add, add-is_nodup,
  contains-add_all, add_all-is_nodup, IsFresh, IsFresh-nil, IsFresh-head, IsFresh-tail,
  IsFresh-cons, trim_space, trim_space_solid, IsSolid, lookup, store_at, drop_key, lookup-store_at,
  lookup-store_at_other, lookup-drop_key, lookup-drop_key_other, if-true, if-false,
}
use tikti.Domain.{
  user_active, invalid_argument, role_admin, platform_privilege_admin, Error, Fallible, User,
  auth_source_saml, invalid_token,
}
use tikti.Access.Scoped.{check-eq-ok}
use tikti.Access.{check, ◌>>◌, or_else}
use tikti.Authority.{issuable_platform_privilege}
use tikti.Session.{
  token_has_audience, iss, Claims, claim, string_of, claim_string_value, sub, email_claim, tid,
  platform_privilege_claim, platform_authority_origin_claim, token_version, same_version, company,
}
use tikti.Session.Current.{
  unexpired_claims, parse_token, not_expired, sign_until, issue_id_token_until, issue_id_token,
  expiry, signed_issuer_valid, validate_current_id_token, nanoseconds, UserService, bound_by_id,
  resolve_user, resolve_current_token_user, federated_home_valid, signed_tenant_active,
  current_platform_authority_valid, usable, current_user, tenant_entry, id_claims,
}
use tikti.Session.Current.Issued.Fields.{
  session_claims, subject_claim, address_claim, issuer_claim, version_claim, audience_claim,
  privilege_absent, origin_absent,
}

check-ok {ℓ} :
    {B : Type ℓ} (b : Bool) (e : Error) (k : Result Error B) {last : Result Error B}
    → b ≡ true
    → k ≡ last
    → (check b e >> k) ≡ last
check-ok b e k h step = rw (h) step

bind-ok :
    {A B : Type 0} (m : Fallible A) (f : A → Fallible B) {a : A} {last : Fallible B}
    → m ≡ ok a
    → f a ≡ last
    → (m >>= f) ≡ last
bind-ok m f h step = rw (h) step

both : {a b : Bool} → a ≡ true → b ≡ true → (a && b) ≡ true
both h k = rw (h, k) refl

-- What the records hold of a password user whose session may be used.
pub record IsUsable (s : UserService) (user : User) : Type 0 where
  pub find : Text → Fallible (Option User)
  pub reads_by_id : s.users.find_by_id ≡ some find
  pub stored : find user.id ≡ ok (some user)
  pub named : is_empty (trim_space user.id) ≡ false
  pub addressed : is_empty (trim_space user.email) ≡ false
  pub folds : s.letters.equal_fold user.email user.email ≡ true
  pub not_saml : teq user.auth_source auth_source_saml ≡ false
  pub active : teq user.status user_active ≡ true
  pub rotated : user.password_change_required ≡ false

usable-ok : (s : UserService) (user : User) → IsUsable s user → usable user ≡ ok tt
unfolding usable
usable-ok s user u = rw (u.active, u.rotated) refl

resolves :
    (s : UserService) (user : User)
    → IsUsable s user
    → resolve_current_token_user s.letters s.users user.id user.email ≡ ok user
unfolding resolve_current_token_user resolve_user bound_by_id or_else
resolves s user u =
    if-false (is_empty (trim_space user.id) || is_empty (trim_space user.email)) _ _
      (ground (arith, u.named, u.addressed))
    ∙ ap (λ f. resolve_user s.letters s.users f user.id user.email) u.reads_by_id
    ∙ ap (λ o. or_else invalid_token o >>= bound_by_id s.letters user.id user.email) u.stored
    ∙ if-false (not (teq user.id user.id) || not (s.letters.equal_fold user.email user.email)) _ _
        (ground (arith, u.folds, teq_refl user.id))

authority_holds :
    (s : UserService) (user : User) (c : Claims)
    → teq user.auth_source auth_source_saml ≡ false
    → claim_string_value c platform_privilege_claim ≡ []
    → claim_string_value c platform_authority_origin_claim ≡ []
    → current_platform_authority_valid s user c ≡ true
unfolding current_platform_authority_valid is_empty
authority_holds s user c local privilege origin = rw (privilege, origin, local) refl

accepts :
    (s : UserService) (user : User) (c : Claims)
    → IsUsable s user
    → claim_string_value c sub ≡ user.id
    → claim_string_value c email_claim ≡ user.email
    → token_version c ≡ some user.token_version
    → claim_string_value c platform_privilege_claim ≡ []
    → claim_string_value c platform_authority_origin_claim ≡ []
    → signed_tenant_active s.access.tenant_repo (claim_string_value c tid) ≡ true
    → current_user s c ≡ ok user
unfolding current_user usable federated_home_valid same_version
accepts s user c u subject address version privilege origin tenant =
    let read : resolve_current_token_user s.letters s.users (claim_string_value c sub)
          (claim_string_value c email_claim)
        ≡ ok user =
      rw (subject, address) (resolves s user u) in
    let same : same_version (token_version c) user.token_version ≡ true =
      rw (version) (ground (arith, ==_iff user.token_version user.token_version)) in
    let home : federated_home_valid s.users user c ≡ true = ground (arith, u.not_saml) in
    let held = authority_holds s user c u.not_saml privilege origin in
    bind-ok
      (resolve_current_token_user s.letters s.users (claim_string_value c sub)
        (claim_string_value c email_claim))
      _ read
      (check-ok
        (federated_home_valid s.users user c
          && signed_tenant_active s.access.tenant_repo (claim_string_value c tid))
        invalid_token _ (both home tenant)
        (bind-ok (usable user) _ (usable-ok s user u) (
          check-ok
            (current_platform_authority_valid s user c
              && same_version (token_version c) user.token_version)
            invalid_token _ (both held same) refl)))

neither : {a b : Bool} → a ≡ false → b ≡ false → (a || b) ≡ false
neither h k = rw (h, k) refl

le→leb : (m n : ℕ) → m ≤ n → leb m n ≡ true
le→leb m n h = ground (arith, h)

same_issuer :
    (s : UserService) (c : Claims)
    → claim_string_value c iss ≡ s.issuer_base_url
    → signed_issuer_valid s s.issuer_base_url c ≡ true
unfolding signed_issuer_valid
same_issuer s c e = elim (Bool-cases (is_empty s.issuer_base_url)) [
  | inl none_given ↦ if-true (is_empty s.issuer_base_url) true _ none_given
  | inr given ↦
      if-false (is_empty s.issuer_base_url) true _ given
      ∙ ap (λ t. teq t s.issuer_base_url) e
      ∙ teq_refl s.issuer_base_url
]

no_privilege : (user : User) → issuable_platform_privilege (some user) [] ≡ []
unfolding issuable_platform_privilege teq
no_privilege user =
    if-false
      (teq user.status user_active
        && teq user.auth_source auth_source_saml
        && teq user.role role_admin
        && false)
      platform_privilege_admin [] (ground arith)

-- What issueIDToken has signed.
signed_claims :
    (s : UserService) (user : User) (now : ℕ) {token : Text} {lifetime : ℕ}
    → issue_id_token s now user [] [] ≡ ok (token, lifetime)
    → s.jwt.sign_hs256 s.jwt_secret (session_claims s user (expiry s none now) (now / nanoseconds))
      ≡ ok token
unfolding issue_id_token issue_id_token_until sign_until
signed_claims s user now {token} h =
    let privilege = issuable_platform_privilege (some user) [] in
    let (unit, usable_user, h1) = >>=-eq-ok (usable user) _ h in
    let (fresh, h2) =
      check-eq-ok (ltb (now / nanoseconds) (expiry s none now)) invalid_argument _ h1 in
    let (signed, written, done) =
      >>=-eq-ok
        (s.jwt.sign_hs256 s.jwt_secret
          (id_claims s user [] privilege (expiry s none now) (now / nanoseconds)))
        _ h2 in
    let same : signed ≡ token = cc in
    ap
      (λ p.
        s.jwt.sign_hs256 s.jwt_secret
          (id_claims s user [] p (expiry s none now) (now / nanoseconds)))
      (sym (no_privilege user))
    ∙ written
    ∙ ap ok same

-- A session that issueIDToken has signed for a stored password user, whose record has not changed,
-- validates for its issuer and audience until it expires, where the repository reads by id, neither
-- id, e-mail, token nor secret is blank, the JWT library reads back what it signed, EqualFold holds
-- of the e-mail and itself, the signed tenant is active, and the version fits 32 bits.
pub issued_session_validates :
    (s : UserService) (user : User) (now later : ℕ) (token : Text) {lifetime : ℕ}
    → IsUsable s user
    → issue_id_token s now user [] [] ≡ ok (token, lifetime)
    → (is_empty (trim_space token) ≡ false) × (is_empty s.jwt_secret ≡ false)
    → (s.jwt.sign_hs256 s.jwt_secret (session_claims s user (expiry s none now) (now / nanoseconds))
          ≡ ok token
        → s.jwt.parse_hs256 (trim_space token) s.jwt_secret later
          ≡ some (session_claims s user (expiry s none now) (now / nanoseconds)))
    → s.jwt.expiration (session_claims s user (expiry s none now) (now / nanoseconds))
      ≡ some (expiry s none now)
    → later ≤ expiry s none now * nanoseconds
    → ltb (2 ^ 31) user.token_version ≡ false
    → signed_tenant_active s.access.tenant_repo
        (claim_string_value (session_claims s user (expiry s none now) (now / nanoseconds)) tid)
      ≡ true
    → validate_current_id_token s later token s.issuer_base_url s.default_audience
      ≡ ok (session_claims s user (expiry s none now) (now / nanoseconds), user)
unfolding validate_current_id_token parse_token unexpired_claims not_expired signed_issuer_valid
issued_session_validates s user now later token u issues (given, keyed) verifies expires live small
      tenant =
    let c = session_claims s user (expiry s none now) (now / nanoseconds) in
    let unexpired : unexpired_claims s.jwt later (some c) ≡ ok c =
      if-true (not_expired (s.jwt.expiration c) later) (ok c) (err invalid_token) (
        ap (λ o. not_expired o later) expires
        ∙ le→leb later (expiry s none now * nanoseconds) live) in
    let parsed : parse_token s.jwt later token s.jwt_secret ≡ ok c =
      if-false (is_empty (trim_space token) || is_empty s.jwt_secret) _ _ (neither given keyed)
      ∙ ap (unexpired_claims s.jwt later) (verifies (signed_claims s user now issues))
      ∙ unexpired in
    let subject = subject_claim s user (expiry s none now) (now / nanoseconds) in
    let address = address_claim s user (expiry s none now) (now / nanoseconds) in
    bind-ok (parse_token s.jwt later token s.jwt_secret) _ parsed (
      check-ok
        (signed_issuer_valid s s.issuer_base_url c && token_has_audience c s.default_audience)
        invalid_token _
        (both (same_issuer s c (issuer_claim s user (expiry s none now) (now / nanoseconds)))
          (audience_claim s user (expiry s none now) (now / nanoseconds)))
        (check-ok
          (not (is_empty (trim_space (claim_string_value c sub)))
            && not (is_empty (trim_space (claim_string_value c email_claim))))
          invalid_token _
          (both (ap (λ t. not (is_empty (trim_space t))) subject ∙ ap not u.named)
            (ap (λ t. not (is_empty (trim_space t))) address ∙ ap not u.addressed))
          (bind-ok (current_user s c) _
            (accepts s user c u subject address
              (version_claim s user (expiry s none now) (now / nanoseconds) small)
              (privilege_absent s user (expiry s none now) (now / nanoseconds))
              (origin_absent s user (expiry s none now) (now / nanoseconds)) tenant)
            refl)))
