-- ===== src/UserStore/Tests.antt =====
-- Runs of the user records on concrete data, and the theorems applied at them.
use tikti.Base.{
  length, ok, err, Text, codes, teq, is_empty, ◌≡◌, refl, ◌≢◌, ◌⊎◌, true, false, none, some, [],
  ◌∷◌, arith, contains, trim_space, lookup, store_at,
}
use tikti.Domain.{User, role_admin, auth_source_saml, invalid_token}
use tikti.Identity.{
  canonical_user_identity, normalize_directory_email, canonical_directory_storage_user, Letters,
  user_suspended,
}
use tikti.Targeting.Scenario.{acme, employee, service}
use tikti.Session.{
  token_version, claim_string_value, claim_string_value, Claims, text, whole, sub, ver, email_claim,
}
use tikti.Session.Current.{Jwt, UserService, validate_current_id_token}
use tikti.Session.Current.Sound.{unlisted_administrator_has_no_session}
use tikti.Session.{iss}
use tikti.Session.Current.Facts.{IsLive, IsAddressed}
use tikti.Session.Current.Sound.{IsCurrent, validate_current_id_token-IsCurrent}
use tikti.UserStore.{Records, document, find_by_id}
use tikti.UserStore.Tokens.{Search, increment_token_version_by_id, set_status}
use tikti.UserStore.Later.{IsHeld, IsLater-refl, IsAttempt}
use tikti.UserStore.Later.Quiet.{quiet, undisturbed_increment_succeeds}
use tikti.UserStore.Later.Commit.Change.{IsBumped, increment_token_version_by_id-IsBumped}
use tikti.UserStore.Later.Status.{set_status-IsBumped}
use tikti.UserStore.Revocation.{revoked_session_never_validates}
use tikti.UserStore.Outage.{find_by_id_outage}

abbrev letters : Letters
letters = record {
  to_lower = λ s. s;
  equal_fold = teq;
  valid_string = λ s. true;
  rune_count = λ s. length s;
  has_control = λ s. false;
}

abbrev u1 : Text
u1 = codes "u1"

abbrev alice : User
alice = record employee { password = codes "hash"; created_at = 5 }

abbrev records : Records
records = record {
  available = true;
  users = (u1, document alice) ∷ [];
  federated = [];
  legacy = [];
  by_email = (codes "u1@acme", u1) ∷ [];
  subjects = [];
  email_index = [];
  backfill_marker = none;
}

abbrev outage : Records
outage = record records { available = false }

quiet-IsAttempt : IsAttempt u1 quiet
quiet-IsAttempt = record {
  others = λ db. IsLater-refl u1 db;
  turn = record {
    meanwhile = λ db. IsLater-refl u1 db;
    rounds =
        λ n. record { between = λ db. IsLater-refl u1 db; afterwards = λ db. IsLater-refl u1 db };
  };
}

alice-IsHeld : IsHeld true u1 alice records
unfolding lookup teq
alice-IsHeld = (refl, refl)

abbrev revoked : Records
revoked = (increment_token_version_by_id letters 7 (λ n. quiet) u1 records).1

increments :
    (increment_token_version_by_id letters 7 (λ n. quiet) u1 records).0
    ≡ ok (record alice { token_version = 1; revision = 1 })
unfolding increment_token_version_by_id lookup teq is_empty trim_space
increments = refl

undisturbed_increment_succeeds_example :
    (increment_token_version_by_id letters 7 (λ n. quiet) u1 records).0
    ≡ ok (record alice { token_version = 1; revision = 1 })
unfolding lookup teq canonical_directory_storage_user is_empty trim_space
undisturbed_increment_succeeds_example =
    undisturbed_increment_succeeds letters 7 alice records refl refl refl refl

abbrev claims : Claims
claims = (sub, text u1) ∷ (ver, whole 0) ∷ (email_claim, text (codes "u1@acme")) ∷ []

abbrev jwt : Jwt
jwt = record {
  parse_hs256 = λ token secret now. some claims;
  sign_hs256 = λ secret given. ok (codes "token");
  expiration = λ given. some 3600;
  parse_rsa_private_key = λ pem. err invalid_token;
}

abbrev sessions : Records → UserService
sessions db = record {
  access = service;
  users = record { find_by_id = some (find_by_id db); find_by_email = λ email. ok none };
  letters = letters;
  jwt = jwt;
  jwt_secret = codes "secret";
  issuer_base_url = [];
  default_audience = [];
  jwks_private_key = [];
  platform_authority_configured = true;
  platform_administrators = [];
}

validates :
    validate_current_id_token (sessions records) 1 (codes "token") [] [] ≡ ok (claims, alice)
unfolding validate_current_id_token is_empty trim_space claim_string_value teq find_by_id lookup
validates = refl

stale : validate_current_id_token (sessions revoked) 1 (codes "token") [] [] ≡ err invalid_token
unfolding validate_current_id_token is_empty trim_space claim_string_value teq find_by_id
    increment_token_version_by_id lookup store_at
stale = refl

revoked_session_never_validates_example :
    validate_current_id_token (sessions revoked) 1 (codes "token") [] [] ≢ ok (claims, alice)
unfolding claim_string_value teq token_version
revoked_session_never_validates_example =
    revoked_session_never_validates (sessions revoked) letters 7 1 (λ n. quiet) (codes "token") []
      [] u1 {claims = claims} {user = alice} true alice records revoked alice-IsHeld
      (λ m. quiet-IsAttempt) increments (IsLater-refl u1 revoked) refl refl refl (omega arith)

increment_token_version_by_id-IsBumped_example :
    IsBumped true u1 alice records
      (increment_token_version_by_id letters 7 (λ n. quiet) u1 records).0
      revoked
increment_token_version_by_id-IsBumped_example =
    increment_token_version_by_id-IsBumped letters 7 u1 (λ n. quiet) true alice records
      (λ m. quiet-IsAttempt) alice-IsHeld

abbrev seek : Search
seek = record { raced = λ n. false; others = λ n db. db }

suspends :
    (set_status letters 7 seek quiet (codes "u1@acme") user_suspended records).0
    ≡ ok (record alice { token_version = 1; revision = 1; status = user_suspended })
unfolding set_status is_empty trim_space lookup teq
suspends = refl

set_status-IsBumped_example :
    IsBumped true u1 alice records
      (set_status letters 7 seek quiet (codes "u1@acme") user_suspended records).0
      (set_status letters 7 seek quiet (codes "u1@acme") user_suspended records).1
unfolding lookup teq normalize_directory_email trim_space
set_status-IsBumped_example =
    set_status-IsBumped letters 7 seek quiet u1 (codes "u1@acme") user_suspended alice records
      quiet-IsAttempt alice-IsHeld refl

find_by_id_outage_example : find_by_id outage u1 ≡ ok none
unfolding canonical_user_identity
find_by_id_outage_example = find_by_id_outage outage u1 refl refl

abbrev admin : User
admin = record alice { role = role_admin; auth_source = auth_source_saml; company_id = some acme }

unlisted_administrator_has_no_session_example :
    validate_current_id_token (sessions records) 1 (codes "token") [] [] ≢ ok (claims, admin)
unfolding contains teq
unlisted_administrator_has_no_session_example =
    unlisted_administrator_has_no_session (sessions records) 1 (codes "token") [] [] refl acme refl
      refl refl refl

validate_current_id_token-IsCurrent_example :
    IsCurrent (sessions records) claims alice
    × (jwt.parse_hs256 (trim_space (codes "token")) (codes "secret") 1 ≡ some claims)
    × IsLive (jwt.expiration claims) 1
    × ((◌≡◌ {A = Text} [] []) ⊎ (claim_string_value claims iss ≡ []))
    × IsAddressed claims []
validate_current_id_token-IsCurrent_example =
    validate_current_id_token-IsCurrent (sessions records) 1 (codes "token") [] [] validates
