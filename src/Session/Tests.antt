-- ===== src/Session/Tests.antt =====
-- A session of a password user on concrete data, and the theorem on issued sessions applied at it.
use tikti.Access.{tenant_is_active}
use tikti.Base.{
  length, ok, err, Text, codes, teq, is_empty, ◌≡◌, refl, true, false, Option, none, some, [],
  arith, trim_space,
}
use tikti.Domain.{User, Fallible, invalid_token}
use tikti.Identity.{Letters}
use tikti.Targeting.Scenario.{employee, service}
use tikti.Session.{claim_string_value, Claims}
use tikti.Session.Current.{
  signed_tenant_active, id_claims, expiry, Jwt, UserService, issue_id_token,
  validate_current_id_token,
}
use tikti.Session.Current.Issued.Fields.{session_claims}
use tikti.Session.Current.Issued.{IsUsable, issued_session_validates}

abbrev letters : Letters
letters = record {
  to_lower = λ s. s;
  equal_fold = teq;
  valid_string = λ s. true;
  rune_count = λ s. length s;
  has_control = λ s. false;
}

abbrev find : Text → Fallible (Option User)
find id = ok (some employee)

abbrev without_claims : Jwt
without_claims = record {
  parse_hs256 = λ token secret now. none;
  sign_hs256 = λ secret given. ok (codes "token");
  expiration = λ given. some 3600;
  parse_rsa_private_key = λ pem. err invalid_token;
}

abbrev sessions_with : Jwt → UserService
sessions_with jwt = record {
  access = service;
  users = record { find_by_id = some find; find_by_email = λ email. ok none };
  letters = letters;
  jwt = jwt;
  jwt_secret = codes "secret";
  issuer_base_url = codes "https://id";
  default_audience = codes "tikti";
  jwks_private_key = [];
  platform_authority_configured = true;
  platform_administrators = [];
}

-- The claims that are signed do not depend on the library that signs them.
abbrev signed : Claims
signed = session_claims (sessions_with without_claims) employee 3600 0

abbrev sessions : UserService
sessions = sessions_with (record without_claims { parse_hs256 = λ token secret now. some signed })

employee-IsUsable : IsUsable sessions employee
unfolding is_empty trim_space teq
employee-IsUsable = record {
  find = find;
  reads_by_id = refl;
  stored = refl;
  named = refl;
  addressed = refl;
  folds = refl;
  not_saml = refl;
  active = refl;
  rotated = refl;
}

issues : issue_id_token sessions 0 employee [] [] ≡ ok (codes "token", 3600)
unfolding issue_id_token teq
issues = refl

issued_session_validates_example :
    validate_current_id_token sessions 5 (codes "token") (codes "https://id") (codes "tikti")
    ≡ ok (session_claims sessions employee 3600 0, employee)
unfolding is_empty trim_space expiry id_claims signed_tenant_active claim_string_value teq
    tenant_is_active
issued_session_validates_example =
    issued_session_validates sessions employee 0 5 (codes "token") employee-IsUsable issues
      (refl, refl) (λ h. refl) refl (omega arith) refl refl
