-- ===== src/Identity.antt =====
-- internal/repository: the canonical forms of stored identities, of exact_identity_repository.go,
-- identity_directory_repository.go and user_repository.go.
use tikti.Base.{
  ltb, leb, ◌==◌, if◌then◌else◌, length, all, Text, codes, teq, is_empty, ℕ, suc, Bool, false, not,
  ◌&&◌, ◌||◌, Option, none, some, [], ◌∷◌, trim_space,
}
use tikti.Domain.{
  User, user_active, auth_source_password, auth_source_saml, retired_default_tenant_id,
  role_company_employee,
}
use tikti.Scope.{contains_byte}
use tikti.Role.{first_byte, last_byte}

-- Go's strings, unicode and utf8 packages: what depends on Unicode tables.
pub record Letters : Type 0 where
  pub to_lower : Text → Text
  pub equal_fold : Text → Text → Bool
  pub valid_string : Text → Bool
  pub rune_count : Text → ℕ
  pub has_control : Text → Bool

abbrev pub user_inactive : Text
user_inactive = codes "INACTIVE"

abbrev pub user_suspended : Text
user_suspended = codes "SUSPENDED"

abbrev pub identity_alphabet : Text
identity_alphabet = codes "abcdefghijklmnopqrstuvwxyzABCDEFGHIJKLMNOPQRSTUVWXYZ0123456789._:-"

unfoldable pub valid_user_status : Text → Bool
valid_user_status status =
    teq status user_active || teq status user_inactive || teq status user_suspended

unfoldable pub tenant_byte : ℕ → Bool
tenant_byte c = (c == b'-') || not (ltb c b'a' || ltb b'z' c) || not (ltb c b'0' || ltb b'9' c)

unfoldable pub canonical_tenant_identity : Text → Bool
unfolding tenant_byte first_byte last_byte
canonical_tenant_identity value =
    if ltb (length value) 1
      || ltb 63 (length value)
      || (first_byte value == b'-')
      || (last_byte value == b'-')
    then false
    else all tenant_byte value

unfoldable pub active_tenant_identity : Text → Bool
unfolding canonical_tenant_identity
active_tenant_identity value =
    not (teq value retired_default_tenant_id) && canonical_tenant_identity value

unfoldable pub canonical_user_identity : Text → Bool
unfolding contains_byte
canonical_user_identity value =
    if ltb (length value) 1 || ltb 128 (length value)
    then false
    else all (contains_byte identity_alphabet) value

-- strings.Count(value, "@")
unfoldable pub count_byte : ℕ → Text → ℕ
count_byte c [] = 0
count_byte c (a ∷ s) = if a == c then suc (count_byte c s) else count_byte c s

unfoldable pub printable : ℕ → Bool
printable c = not (ltb c b'!' || ltb b'~' c)

-- `at == 0` and `at == len(value)-1` ask for the first and the last byte.
unfoldable pub canonical_email : Text → Bool
unfolding count_byte first_byte last_byte printable
canonical_email value =
    if ltb (length value) 3 || ltb 254 (length value) || not (count_byte b'@' value == 1)
    then false
    else if (first_byte value == b'@') || (last_byte value == b'@')
    then false
    else all printable value

unfoldable pub same_company : Option Text → Option Text → Bool
same_company none other = false
same_company (some company) none = false
same_company (some company) (some other) = teq company other

module _ (l : Letters) where
  unfoldable pub valid_identity_text : Text → ℕ → Bool
  valid_identity_text value maximum =
      l.valid_string value
      && teq (trim_space value) value
      && not (ltb (l.rune_count value) 1)
      && not (ltb maximum (l.rune_count value))
      && not (l.has_control value)

  unfoldable pub valid_external_subject : Text → Bool
  unfolding valid_identity_text
  valid_external_subject value = leb (length value) 512 && valid_identity_text value 512

  unfoldable pub valid_tenant_name : Text → Bool
  unfolding valid_identity_text
  valid_tenant_name value = valid_identity_text value 128

  unfoldable pub normalize_directory_email : Text → Text
  unfolding canonical_email
  normalize_directory_email value =
      let address = l.to_lower (trim_space value) in
      if not (canonical_email address) then [] else address

  unfoldable pub stored_company : Option Text → Bool
  unfolding active_tenant_identity
  stored_company none = false
  stored_company (some company) = active_tenant_identity company

  -- canonicalFederatedUser for a user that is there
  unfoldable pub canonical_federated_user : User → Option User
  unfolding canonical_user_identity valid_external_subject stored_company canonical_email
      valid_user_status normalize_directory_email
  canonical_federated_user user =
      if not (canonical_user_identity user.id)
        || not (teq user.auth_source auth_source_saml)
        || not (valid_external_subject user.external_subject)
        || not (stored_company user.company_id)
        || not (canonical_email user.email)
        || not (valid_user_status user.status)
      then none
      else some (record user {
        password = [];
        password_change_required = false;
        email = normalize_directory_email user.email;
      })

  unfoldable pub stored_source : Text → Text
  stored_source source = if is_empty source then auth_source_password else source

  -- The credential that the source of a user asks for.
  unfoldable pub has_credential : Text → User → Bool
  unfolding valid_external_subject
  has_credential source user =
      (teq source auth_source_password && not (is_empty (trim_space user.password)))
      || (teq source auth_source_saml && valid_external_subject user.external_subject)

  -- The copy with its defaults; SAML drops the password.
  unfoldable pub with_defaults : ℕ → User → User
  unfolding normalize_directory_email stored_source
  with_defaults now user =
      let saml = teq (stored_source user.auth_source) auth_source_saml in
      record user {
        created_at = if user.created_at == 0 then now else user.created_at;
        status = if is_empty user.status then user_active else user.status;
        role = if is_empty user.role then role_company_employee else user.role;
        email = normalize_directory_email user.email;
        auth_source = stored_source user.auth_source;
        password = if saml then [] else user.password;
        password_change_required = if saml then false else user.password_change_required;
      }

  unfoldable pub storable : ℕ → User → Bool
  unfolding canonical_user_identity normalize_directory_email stored_source has_credential
      with_defaults valid_user_status
  storable now user =
      canonical_user_identity user.id
      && not (is_empty (normalize_directory_email user.email))
      && has_credential (stored_source user.auth_source) user
      && valid_user_status (with_defaults now user).status

  -- canonicalDirectoryStorageUser for a user that is there; the zero time is 0.
  unfoldable pub canonical_directory_storage_user : ℕ → User → Option User
  unfolding storable with_defaults
  canonical_directory_storage_user now user =
      if not (storable now user) then none else some (with_defaults now user)
