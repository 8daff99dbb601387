-- ===== src/Session/Current/Issued/Fields.antt =====
-- The claims of an issued session, field by field.
use tikti.Base.{
  ltb, Bool-cases, Text, codes, teq, teq_refl, is_empty, ℕ, ◌^◌, ◌≡◌, refl, ap, inl, inr, true,
  false, ◌||◌, none, some, [], ◌++◌, arith,
}
use tikti.Domain.{User}
use tikti.Session.{
  token_has_audience, iss, Claims, claim, string_of, claim_string_value, sub, email_claim, tid,
  platform_privilege_claim, platform_authority_origin_claim, token_version, company,
}
use tikti.Session.Current.{UserService, tenant_entry, id_claims}

module _ (s : UserService) (user : User) (expires issued : ℕ) where
  -- The claims of a session without methods and privilege.
  abbrev pub session_claims : Claims
  session_claims = id_claims s user [] [] expires issued

  pub subject_claim : claim_string_value session_claims sub ≡ user.id
  unfolding claim_string_value id_claims teq
  subject_claim = refl

  pub address_claim : claim_string_value session_claims email_claim ≡ user.email
  unfolding claim_string_value id_claims teq
  address_claim = refl

  pub issuer_claim : claim_string_value session_claims iss ≡ s.issuer_base_url
  unfolding claim_string_value id_claims teq
  issuer_claim = refl

  pub version_claim :
      ltb (2 ^ 31) user.token_version ≡ false
      → token_version session_claims ≡ some user.token_version
  unfolding token_version id_claims teq
  version_claim small = rw (small) refl

  pub audience_claim : token_has_audience session_claims s.default_audience ≡ true
  unfolding token_has_audience id_claims teq
  audience_claim = ground (arith, teq_refl s.default_audience)

  -- Only a tenant may follow the fixed claims.
  absent_claim : (key : Text) → teq tid key ≡ false → claim (tenant_entry s user ++ []) key ≡ none
  unfolding claim tenant_entry
  absent_claim key other =
      elim (Bool-cases (is_empty (company user) || teq (company user) (codes "default"))) [
        | inl e ↦ rw (e) refl
        | inr e ↦ rw (e) (rw (other) refl)
      ]

  pub privilege_absent : claim_string_value session_claims platform_privilege_claim ≡ []
  unfolding claim_string_value id_claims teq is_empty
  privilege_absent = ap string_of (absent_claim platform_privilege_claim refl)

  pub origin_absent : claim_string_value session_claims platform_authority_origin_claim ≡ []
  unfolding claim_string_value id_claims teq is_empty
  origin_absent = ap string_of (absent_claim platform_authority_origin_claim refl)
