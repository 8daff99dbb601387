-- ===== src/Session/Current/Facts.antt =====
-- internal/services/user_service.go: what each test of validateCurrentIDToken says of the stored
-- records, the configuration and the claims, with no mention of the test.
use tikti.Base.{
  Option, if◌then◌else◌, leb→le, Bool-cases, Option-cases, ok, err, >>=-eq-ok, Text, teq, teq_sound,
  teq_iff, is_empty, ℕ, ◌*◌, ◌≤◌, ◌≡◌, refl, ap, ◌∙◌, ◌≢◌, ◌⊎◌, inl, inr, true, ◌&&◌, none, some,
  List, [], ◌∷◌, arith, contains, trim_space,
}
use tikti.Domain.{Fallible, User, Tenant, tenant_active, auth_source_saml, invalid_token}
use tikti.Access.{TenantRepository, or_else, tenant_is_active}
use tikti.Access.Scoped.{or_else-eq-ok}
use tikti.Identity.{Letters}
use tikti.Session.{
  ClaimValue, text, items, texts, null, negative, other, whole, fraction, Claims, claim,
  claim_string_value, tid, aud, is_item, some_item, names_audience, token_has_audience, company,
  is_company,
}
use tikti.Session.Current.{
  Users, nanoseconds, not_expired, bound_by_id, bound_by_email, resolve_user, subject_authoritative,
  federated_home_valid, stored_active, current_tenant_active, signed_tenant_active,
}

-- The user is the one stored under the subject; where users are read by e-mail only, the one stored
-- under the e-mail, and the subject is its id or its e-mail.
abbrev pub IsBound :
    Letters → Users → Option (Text → Fallible (Option User)) → Text → Text → User → Type 0
IsBound l users none subject email user =
    (users.find_by_email email ≡ ok (some user))
    × ((subject ≡ user.id) ⊎ (l.equal_fold subject user.email ≡ true))
IsBound l users (some find) subject email user =
    (find subject ≡ ok (some user)) × (user.id ≡ subject)

bound_by_id-eq-ok :
    (l : Letters) (subject email : Text) (o : Option User) {user : User}
    → bound_by_id l subject email o ≡ ok user
    → (o ≡ some user) × (teq user.id subject ≡ true) × (l.equal_fold user.email email ≡ true)
unfolding bound_by_id
bound_by_id-eq-ok l subject email none h = cc
bound_by_id-eq-ok l subject email (some u) {user} h =
    let test : (teq u.id subject && l.equal_fold u.email email) ≡ true = ground (arith, h) in
    let same : u ≡ user = ground (arith, h, test) in
    rw (← same) (refl, ground (arith, test), ground (arith, test))

bound_by_email-eq-ok :
    (l : Letters) (subject email : Text) (o : Option User) {user : User}
    → bound_by_email l subject email o ≡ ok user
    → (o ≡ some user)
      × ((subject ≡ user.id) ⊎ (l.equal_fold subject user.email ≡ true))
      × (l.equal_fold user.email email ≡ true)
unfolding bound_by_email
bound_by_email-eq-ok l subject email none h = cc
bound_by_email-eq-ok l subject email (some u) {user} h =
    let same : u ≡ user = ground (arith, h) in
    let address : l.equal_fold u.email email ≡ true = ground (arith, h) in
    let named : (subject ≡ u.id) ⊎ (l.equal_fold subject u.email ≡ true) =
      ground (arith, h, teq_iff subject u.id) in
    rw (← same) (refl, named, address)

pub resolve_user-eq-ok :
    (l : Letters) (users : Users) (by_id : Option (Text → Fallible (Option User)))
    (subject email : Text) {user : User}
    → resolve_user l users by_id subject email ≡ ok user
    → IsBound l users by_id subject email user × (l.equal_fold user.email email ≡ true)
unfolding resolve_user
resolve_user-eq-ok l users none subject email h =
    let (o, read, bound) = >>=-eq-ok (or_else invalid_token (users.find_by_email email)) _ h in
    let (same, named, address) = bound_by_email-eq-ok l subject email o bound in
    ((or_else-eq-ok invalid_token (users.find_by_email email) read ∙ ap ok same, named), address)
resolve_user-eq-ok l users (some by_id) subject email {user} h =
    let (o, read, bound) = >>=-eq-ok (or_else invalid_token (by_id subject)) _ h in
    let (same, id, address) = bound_by_id-eq-ok l subject email o bound in
    (
      (or_else-eq-ok invalid_token (by_id subject) read ∙ ap ok same, teq_sound user.id subject id),
      address,
    )

-- The `exp` claim is there and not past.
abbrev pub IsLive : Option ℕ → ℕ → Type 0
IsLive expiration now = (expires : ℕ) × (expiration ≡ some expires) × (now ≤ expires * nanoseconds)

pub not_expired-IsLive : (o : Option ℕ) (now : ℕ) → not_expired o now ≡ true → IsLive o now
unfolding not_expired
not_expired-IsLive none now h = absurd (ground (arith, h))
not_expired-IsLive (some expires) now h = (expires, refl, leb→le now (expires * nanoseconds) h)

-- The texts of an `aud` claim.
abbrev pub strings_in : List (Option Text) → List Text
strings_in [] = []
strings_in (none ∷ rest) = strings_in rest
strings_in (some s ∷ rest) = s ∷ strings_in rest

abbrev pub audiences : Option ClaimValue → List Text
audiences (some (text value)) = value ∷ []
audiences (some (items values)) = strings_in values
audiences (some (texts values)) = values
audiences _ = []

contains-some_item :
    (audience : Text) (values : List (Option Text))
    → contains (strings_in values) audience ≡ some_item audience values
unfolding some_item is_item contains
contains-some_item audience [] = refl
contains-some_item audience (none ∷ rest) = ground (arith, contains-some_item audience rest)
contains-some_item audience (some s ∷ rest) = ground (arith, contains-some_item audience rest)

contains-audiences :
    (o : Option ClaimValue) (audience : Text)
    → contains (audiences o) audience ≡ names_audience o audience
unfolding names_audience contains
contains-audiences none audience = refl
contains-audiences (some (text value)) audience = ground arith
contains-audiences (some (items values)) audience = contains-some_item audience values
contains-audiences (some (texts values)) audience = refl
contains-audiences (some null) audience = refl
contains-audiences (some negative) audience = refl
contains-audiences (some other) audience = refl
contains-audiences (some (whole n)) audience = refl
contains-audiences (some (fraction n)) audience = refl

abbrev pub IsAddressed : Claims → Text → Type 0
IsAddressed claims audience =
    (trim_space audience ≡ []) ⊎ (contains (audiences (claim claims aud)) audience ≡ true)

pub is_empty-eq-nil : (t : Text) → is_empty t ≡ true → t ≡ []
unfolding is_empty
is_empty-eq-nil [] h = refl
is_empty-eq-nil (c ∷ cs) h = absurd (ground (arith, h))

pub token_has_audience-IsAddressed :
    (claims : Claims) (audience : Text)
    → token_has_audience claims audience ≡ true
    → IsAddressed claims audience
unfolding token_has_audience
token_has_audience-IsAddressed claims audience h =
    elim (Bool-cases (is_empty (trim_space audience))) [
      | inl any ↦ inl (is_empty-eq-nil (trim_space audience) any)
      | inr one ↦ inr (contains-audiences (claim claims aud) audience ∙ ground (arith, h, one))
    ]

-- The signed tenant is stored under its id and active; without a tenant repository nothing is known.
abbrev pub IsStoredActive : Option TenantRepository → Text → Type 0
IsStoredActive none tenant_id = Unit {0}
IsStoredActive (some repo) tenant_id =
    (tenant : Tenant) × (repo.get tenant_id ≡ ok (some tenant))
    × (tenant.id ≡ tenant_id)
    × (tenant.status ≡ tenant_active)

active_tenant :
    (tenant_id : Text) (answer : Fallible (Option Tenant))
    → stored_active tenant_id answer ≡ true
    → (tenant : Tenant) × (answer ≡ ok (some tenant))
      × (tenant.id ≡ tenant_id)
      × (tenant.status ≡ tenant_active)
unfolding stored_active tenant_is_active
active_tenant tenant_id (err e) h = absurd (ground (arith, h))
active_tenant tenant_id (ok none) h = absurd (ground (arith, h))
active_tenant tenant_id (ok (some t)) h = (
  t,
  refl,
  teq_sound t.id tenant_id (ground (arith, h)),
  teq_sound t.status tenant_active (ground (arith, h)),
)

current_tenant_active-IsStoredActive :
    (repo : Option TenantRepository) (tenant_id : Text)
    → current_tenant_active repo tenant_id ≡ true
    → IsStoredActive repo tenant_id
unfolding current_tenant_active
current_tenant_active-IsStoredActive none tenant_id h = tt
current_tenant_active-IsStoredActive (some repo) tenant_id h =
    active_tenant tenant_id (repo.get tenant_id) h

pub signed_tenant_active-IsStoredActive :
    (repo : Option TenantRepository) (tenant_id : Text)
    → signed_tenant_active repo tenant_id ≡ true
    → (tenant_id ≡ []) ⊎ IsStoredActive repo tenant_id
unfolding signed_tenant_active
signed_tenant_active-IsStoredActive repo tenant_id h = elim (Bool-cases (is_empty tenant_id)) [
  | inl absent ↦ inl (is_empty-eq-nil tenant_id absent)
  | inr present ↦
      inr (current_tenant_active-IsStoredActive repo tenant_id (ground (arith, h, present)))
]

-- The signed tenant is the user's company, and there is none for a user of no company.
abbrev pub IsHome : Option Text → Text → Type 0
IsHome none tenant_id = tenant_id ≡ []
IsHome (some home) tenant_id = tenant_id ≡ trim_space home

signed_company :
    (user : User) (o : Option Text) (tenant_id : Text)
    → user.company_id ≡ o
    → (if is_company user then teq tenant_id (company user) else is_empty tenant_id) ≡ true
    → IsHome o tenant_id
unfolding is_company company
signed_company user none tenant_id e h = is_empty-eq-nil tenant_id (ground (arith, rw e at h))
signed_company user (some home) tenant_id e h =
    teq_sound tenant_id (trim_space home) (ground (arith, rw e at h))

pub federated_home_valid-IsHome :
    (users : Users) (user : User) (claims : Claims)
    → federated_home_valid users user claims ≡ true
    → (users.find_by_id ≡ none)
      ⊎ ((user.auth_source ≢ auth_source_saml)
          ⊎ IsHome user.company_id (claim_string_value claims tid))
unfolding federated_home_valid subject_authoritative
federated_home_valid-IsHome users user claims h = elim (Option-cases users.find_by_id) [
  | inl unread ↦ inl unread
  | inr (find, read) ↦ elim (Bool-cases (teq user.auth_source auth_source_saml)) [
    | inl saml ↦ inr (
        inr (
          signed_company user user.company_id (claim_string_value claims tid) refl
            (ground (arith, rw read at h, saml))))
    | inr foreign ↦
        inr (inl λ same. ground (arith, foreign, teq_iff user.auth_source auth_source_saml, same))
  ]
]
