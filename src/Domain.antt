-- ===== src/Domain.antt =====
-- pkg/domain: the records that the services exchange, and their errors. Go's string enums stay texts,
-- since a stored record may hold any string; a nil pointer is `none`.
pub mod Clients
pub mod Workloads
use tikti.Base.{
  ltb, leb, ◌==◌, if◌then◌else◌, ltb→lt, lt→ltb, leb→le, ==_iff, Bool-cases, Option-cases, bool_ext,
  &&_true, length, all, keep, length-append, length-keep-le, All, All-append, All-append_left,
  All-append_right, All-reverse, All-keep, All-map, All-of-all, all-of-All, Result, ok, err, ◌>>=◌,
  >>=-eq-ok, Text, codes, teq, tle, tlt, teq_sound, teq_refl, teq_iff, teq_comm, tle_refl,
  tle_total, tle_antisymm, tle_trans, has_prefix, is_empty, ℕ, zero, suc, ◌+◌, ◌-◌, ◌*◌, ◌/◌, ◌%◌,
  ◌^◌, ◌≤◌, ◌<◌, String, ◌≡◌, refl, sym, ap, ◌∙◌, ◌≡⟨◌⟩◌, ◌∎, ◌≢◌, ◌↔◌, ◌⊎◌, inl, inr, Bool, true,
  false, not, ◌&&◌, ◌||◌, Option, none, some, List, [], ◌∷◌, ◌++◌, map, reverse, arith, same_texts,
  same_texts_iff, contains, is_nodup, contains-append, contains-keep, All-contains, All-of_contains,
  subset, contains-subset, insert, sort, IsSorted, IsStrict, contains-insert, contains-sort,
  All-insert, All-sort, length-insert, length-sort, sort-IsSorted, sort-IsStrict, sort_of_IsSorted,
  IsStrict-IsSorted, IsStrict-is_nodup, sort_of_IsStrict, IsStrict-ext, is_nodup-concat,
  contains_congr, IsFresh, IsFresh-nil, IsFresh-head, IsFresh-tail, IsFresh-cons, trim_space,
  trim_space_solid, IsSolid,
}

-- pkg/domain/errors.go, and the errors that a service wraps with no sentinel of its own.
pub data Error : Type 0 where
  email_exists invalid_creds password_change_required rate_limited : Error
  authentication_unavailable version_conflict : Error
  directory_invariant invalid_token invalid_audience invalid_tenant unauthorized_scope : Error
  invalid_argument tenant_conflict tenant_invariant role_conflict role_not_found : Error
  membership_not_found membership_conflict not_found invalid_oob : Error
  stored_role_mismatch repository_failure : Error

abbrev pub Fallible : Type 0 → Type 0
Fallible A = Result Error A

-- pkg/domain/tenant.go
abbrev pub master_tenant_id : Text
master_tenant_id = codes "local-tenant"

abbrev pub retired_default_tenant_id : Text
retired_default_tenant_id = codes "default"

abbrev pub tenant_active : Text
tenant_active = codes "ACTIVE"

-- `retired_at` is the tombstone's time, `none` for nil; times are seconds.
pub record Tenant : Type 0 where
  pub id : Text
  pub slug : Text
  pub name : Text
  pub status : Text
  pub created_at : ℕ
  pub retired_at : Option ℕ

-- pkg/domain/user.go
abbrev pub user_active : Text
user_active = codes "ACTIVE"

abbrev pub role_admin : Text
role_admin = codes "ADMIN"

abbrev pub role_company_admin : Text
role_company_admin = codes "COMPANY_ADMIN"

abbrev pub role_company_employee : Text
role_company_employee = codes "COMPANY_EMPLOYEE"

abbrev pub platform_tenant_admin_scope : Text
platform_tenant_admin_scope = codes "code-admin:tenants:admin"

abbrev pub platform_privilege_admin : Text
platform_privilege_admin = codes "platform-admin"

abbrev pub auth_source_password : Text
auth_source_password = codes "password"

abbrev pub auth_source_saml : Text
auth_source_saml = codes "saml"

-- Go's `int` token version counts up from 0.
pub record User : Type 0 where
  pub id : Text
  pub email : Text
  pub password : Text
  pub role : Text
  pub status : Text
  pub company_id : Option Text
  pub token_version : ℕ
  pub revision : ℕ
  pub created_at : ℕ
  pub auth_source : Text
  pub external_subject : Text
  pub password_change_required : Bool

-- pkg/domain/role.go
abbrev pub role_scope_tenant : Text
role_scope_tenant = codes "TENANT"

pub record Role : Type 0 where
  pub name : Text
  pub scope : Text
  pub tenant_id : Text
  pub resource_id : Text
  pub permissions : List Text

pub record RoleResp : Type 0 where
  pub name : Text
  pub permissions : List Text

-- pkg/domain/membership.go
pub record Membership : Type 0 where
  pub id : Text
  pub tenant_id : Text
  pub user_id : Text
  pub roles : List Text
  pub created_at : ℕ

-- pkg/domain/client.go
pub record Client : Type 0 where
  pub id : Text
  pub tenant_id : Text
  pub secret_hash : Text
  pub type : Text
  pub allowed_grant_types : List Text
  pub default_scopes : List Text
  pub status : Text
  pub managed_by : Text
