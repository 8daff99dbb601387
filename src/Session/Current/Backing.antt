-- ===== src/Session/Current/Backing.antt =====
-- internal/services/user_service.go: what currentPlatformAuthorityValid says of the stored user, the
-- allowlist and the signed claims.
use tikti.Base.{
  Bool-cases, Option-cases, Text, teq, teq_sound, teq_iff, is_empty, ◌≡◌, ◌≢◌, ◌⊎◌, inl, inr, true,
  false, some, [], arith, contains,
}
use tikti.Domain.{User, role_admin, auth_source_saml, platform_privilege_admin}
use tikti.Session.{
  Claims, claim_string_value, platform_privilege_claim, platform_authority_origin_claim,
  platform_authority_origin_saml, current_platform_administrator_key,
}
use tikti.Session.Current.{UserService, allowlisted, current_platform_authority_valid}
use tikti.Session.Current.Facts.{is_empty-eq-nil}

-- What a session's platform authority rests on: a signed privilege is the administrator's and the
-- stored role is ADMIN; a signed origin is that of SAML, of a stored SAML administrator; and a SAML
-- administrator has a company and is on the allowlist, where one is configured.
pub record IsBacked (s : UserService) (user : User) (privilege origin : Text) : Type 0 where
  pub privileged :
      (privilege ≡ []) ⊎ ((privilege ≡ platform_privilege_admin) × (user.role ≡ role_admin))
  pub originated :
      (origin ≡ [])
      ⊎ ((origin ≡ platform_authority_origin_saml)
          × (user.auth_source ≡ auth_source_saml)
          × (user.role ≡ role_admin))
  pub listed :
      (user.auth_source ≢ auth_source_saml)
      ⊎ ((user.role ≢ role_admin)
          ⊎ ((home : Text) × (user.company_id ≡ some home)
              × ((s.platform_authority_configured ≡ false)
                  ⊎ (contains s.platform_administrators
                        (current_platform_administrator_key s.letters.to_lower home user.email)
                      ≡ true))))

allowlisted_cases :
    (s : UserService) (user : User)
    → allowlisted s user ≡ true
    → (home : Text) × (user.company_id ≡ some home)
      × ((s.platform_authority_configured ≡ false)
          ⊎ (contains s.platform_administrators
                (current_platform_administrator_key s.letters.to_lower home user.email)
              ≡ true))
unfolding allowlisted
allowlisted_cases s user h = elim (Option-cases user.company_id) [
  | inl e ↦ absurd (ground (arith, rw e at h))
  | inr (home, e) ↦ (home, e, ground (arith, rw e at h))
]

module _ (s : UserService) (user : User) (claims : Claims) where
  valid_privilege :
      current_platform_authority_valid s user claims ≡ true
      → (claim_string_value claims platform_privilege_claim ≡ [])
        ⊎ ((claim_string_value claims platform_privilege_claim ≡ platform_privilege_admin)
            × (user.role ≡ role_admin))
  unfolding current_platform_authority_valid
  valid_privilege h =
      let privilege = claim_string_value claims platform_privilege_claim in
      elim (Bool-cases (is_empty privilege)) [
        | inl absent ↦ inl (is_empty-eq-nil privilege absent)
        | inr present ↦ inr (
          teq_sound privilege platform_privilege_admin (ground (arith, h, present)),
          teq_sound user.role role_admin (ground (arith, h, present)),
        )
      ]

  valid_origin :
      current_platform_authority_valid s user claims ≡ true
      → (claim_string_value claims platform_authority_origin_claim ≡ [])
        ⊎ ((claim_string_value claims platform_authority_origin_claim
              ≡ platform_authority_origin_saml)
            × (user.auth_source ≡ auth_source_saml)
            × (user.role ≡ role_admin))
  unfolding current_platform_authority_valid
  valid_origin h =
      let origin = claim_string_value claims platform_authority_origin_claim in
      elim (Bool-cases (is_empty origin)) [
        | inl absent ↦ inl (is_empty-eq-nil origin absent)
        | inr present ↦ inr (
          teq_sound origin platform_authority_origin_saml (ground (arith, h, present)),
          teq_sound user.auth_source auth_source_saml (ground (arith, h, present)),
          teq_sound user.role role_admin (ground (arith, h, present)),
        )
      ]

  pub current_platform_authority_valid-IsBacked :
      current_platform_authority_valid s user claims ≡ true
      → IsBacked s user
          (claim_string_value claims platform_privilege_claim)
          (claim_string_value claims platform_authority_origin_claim)
  unfolding current_platform_authority_valid
  current_platform_authority_valid-IsBacked h = record {
    privileged = valid_privilege h;
    originated = valid_origin h;
    listed = elim (Bool-cases (teq user.auth_source auth_source_saml)) [
      | inr foreign ↦
          inl λ same. ground (arith, foreign, teq_iff user.auth_source auth_source_saml, same)
      | inl saml ↦ elim (Bool-cases (teq user.role role_admin)) [
        | inr plain ↦ inr (inl λ same. ground (arith, plain, teq_iff user.role role_admin, same))
        | inl admin ↦ inr (inr (allowlisted_cases s user (ground (arith, h, saml, admin))))
      ]
    ];
  }
