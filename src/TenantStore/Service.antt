-- ===== src/TenantStore/Service.antt =====
-- internal/services/tenant_service.go over the registry of tenants.
pub mod Created
use tikti.Base.{
  ltb, leb, ◌==◌, if◌then◌else◌, ltb→lt, lt→ltb, leb→le, ==_iff, Bool-cases, Option-cases, bool_ext,
  &&_true, length, all, keep, length-append, length-keep-le, All, All-append, All-append_left,
  All-append_right, All-reverse, All-keep, All-map, All-of-all, all-of-All, Result, ok, err, ◌>>=◌,
  >>=-eq-ok, Text, codes, teq, tle, tlt, teq_sound, teq_refl, teq_iff, teq_comm, tle_refl,
  tle_total, tle_antisymm, tle_trans, has_prefix, is_empty, ℕ, zero, suc, ◌+◌, ◌-◌, ◌*◌, ◌/◌, ◌%◌,
  ◌^◌, ◌≤◌, ◌<◌, String, ◌≡◌, refl, sym, ap, ◌∙◌, ◌≡⟨◌⟩◌, ◌∎, ◌≢◌, ◌↔◌, ◌⊎◌, inl, inr, Bool, true,
  false, not, ◌&&◌, ◌||◌, Option, none, some, List, [], ◌∷◌, ◌++◌, map, reverse, arith,
  is_empty_congr, same_texts, same_texts_iff, contains, is_nodup, contains-append, contains-keep,
  All-contains, All-of_contains, subset, contains-subset, insert, sort, IsSorted, IsStrict,
  contains-insert, contains-sort, All-insert, All-sort, length-insert, length-sort, sort-IsSorted,
  sort-IsStrict, sort_of_IsSorted, IsStrict-IsSorted, IsStrict-is_nodup, sort_of_IsStrict,
  IsStrict-ext, is_nodup-concat, contains_congr, add, add_all, contains-add, add-is_nodup,
  contains-add_all, add_all-is_nodup, IsFresh, IsFresh-nil, IsFresh-head, IsFresh-tail,
  IsFresh-cons, trim_space, trim_space_solid, IsSolid, lookup, store_at, drop_key, lookup-store_at,
  lookup-store_at_other, lookup-drop_key, lookup-drop_key_other,
}
use tikti.Domain.{
  Error, Fallible, Tenant, tenant_active, master_tenant_id, retired_default_tenant_id,
  invalid_argument, invalid_tenant, tenant_conflict, tenant_invariant, not_found,
}
use tikti.Role.{first_byte, last_byte}
use tikti.Identity.{Letters, tenant_byte}
use tikti.TenantName.{Unicode}
use tikti.TenantName
use tikti.TenantStore.{Registry, Round, create_if_absent, retire, get}

-- The name that the master tenant shows.
abbrev pub master_tenant_name : Text
master_tenant_name = codes "Code Foundry"

abbrev pub tenant_type_master : Text
tenant_type_master = codes "MASTER"

abbrev pub tenant_type_workload : Text
tenant_type_workload = codes "WORKLOAD"

pub record TenantResp : Type 0 where
  pub id : Text
  pub slug : Text
  pub name : Text
  pub status : Text
  pub created_at : ℕ
  pub tenant_type : Text

-- Go's conversions between the bytes of a string and its runes, for the package tenantname.
pub record Names : Type 0 where
  pub unicode : Unicode
  pub runes : Text → Text
  pub bytes : Text → Text

-- validDNSLabel: the pattern ^[a-z0-9](?:[-a-z0-9]*[a-z0-9])?$ on 1 to 63 bytes
unfoldable pub valid_label : Text → Bool
unfolding tenant_byte first_byte last_byte
valid_label value =
    not (is_empty value)
    && leb (length value) 63
    && not (first_byte value == b'-')
    && not (last_byte value == b'-')
    && all tenant_byte value

-- tenantResponse
unfoldable pub tenant_response : Tenant → TenantResp
tenant_response tenant =
    let master = teq tenant.id master_tenant_id in
    record {
      id = tenant.id;
      slug = tenant.slug;
      name = if master then master_tenant_name else tenant.name;
      status = tenant.status;
      created_at = tenant.created_at;
      tenant_type = if master then tenant_type_master else tenant_type_workload;
    }

module _ (names : Names) where
  unfoldable pub normalized_name : Text → Text
  normalized_name name = names.bytes (TenantName.normalize names.unicode (names.runes name))

  unfoldable pub valid_name : Text → Bool
  valid_name name = TenantName.valid names.unicode (names.runes name)

  unfoldable pub reserved_name : Text → Bool
  reserved_name name = TenantName.reserved_master names.unicode (names.runes name)

  -- validStoredTenant for a tenant that is there
  unfoldable pub valid_stored_tenant : Tenant → Bool
  unfolding valid_label valid_name reserved_name
  valid_stored_tenant tenant =
      not (teq tenant.id retired_default_tenant_id)
      && valid_label tenant.id
      && teq tenant.slug tenant.id
      && valid_name tenant.name
      && (teq tenant.id master_tenant_id || not (reserved_name tenant.name))

  unfoldable pub active_stored : Text → Fallible (Option Tenant) → Fallible Bool
  unfolding valid_stored_tenant
  active_stored tenant_id (err e) = err e
  active_stored tenant_id (ok none) = ok false
  active_stored tenant_id (ok (some tenant)) =
      if not (teq tenant.id tenant_id) || not (valid_stored_tenant tenant)
      then err tenant_invariant
      else ok (teq tenant.status tenant_active)

  -- IsTenantActive
  unfoldable pub is_tenant_active : Text → Registry → Fallible Bool
  unfolding active_stored valid_label get
  is_tenant_active tenant_id r =
      if not (valid_label tenant_id)
      then err invalid_argument
      else if teq tenant_id retired_default_tenant_id
      then ok false
      else active_stored tenant_id (get tenant_id r)

  unfoldable pub response_of : Fallible (Option Tenant) → Fallible TenantResp
  unfolding valid_stored_tenant tenant_response
  response_of (err e) = err e
  response_of (ok none) = err not_found
  response_of (ok (some tenant)) =
      if not (valid_stored_tenant tenant) then err tenant_invariant else ok (tenant_response tenant)

  -- Get of the service
  unfoldable pub get_tenant : Text → Registry → Fallible TenantResp
  unfolding response_of get
  get_tenant tenant_id r =
      if is_empty (trim_space tenant_id)
      then err invalid_argument
      else if teq tenant_id retired_default_tenant_id
      then err not_found
      else response_of (get tenant_id r)

  unfoldable pub proposed : Text → Text → Text → Tenant
  proposed tenant_id name slug = record {
    id = tenant_id;
    slug = slug;
    name = name;
    status = tenant_active;
    created_at = 0;
    retired_at = none;
  }

  unfoldable pub creatable : Text → Text → Text → Bool
  unfolding valid_label valid_name reserved_name
  creatable tenant_id name slug =
      valid_label tenant_id
      && valid_name name
      && teq slug tenant_id
      && not (teq tenant_id retired_default_tenant_id)
      && (if teq tenant_id master_tenant_id
          then teq name master_tenant_name
          else not (reserved_name name))

  unfoldable pub agreed :
      Text → Text → Fallible (Tenant × Bool) × Registry → Fallible (TenantResp × Bool) × Registry
  agreed name slug (err e, r) = (err e, r)
  agreed name slug (ok (existing, created), r) =
      if not (teq existing.name name) || not (teq existing.slug slug)
      then (err tenant_conflict, r)
      else (ok (tenant_response existing, created), r)

  -- CreateWithID; its flag says whether the tenant is new.
  unfoldable pub create_with_id :
      Letters
      → (Registry → Registry)
      → ℕ
      → Text
      → Text
      → Text
      → Text
      → Registry
      → Fallible (TenantResp × Bool) × Registry
  unfolding agreed creatable proposed create_if_absent normalized_name
  create_with_id l meanwhile now fresh tenant_id name slug r =
      let given = normalized_name name in
      if not (creatable tenant_id given slug)
      then (err invalid_argument, r)
      else agreed given slug
          (create_if_absent l meanwhile now fresh (proposed tenant_id given slug) r)

-- Retire of the service, over a registry that can retire
unfoldable pub retire_tenant :
    Letters → (ℕ → Round) → ℕ → Text → Registry → Fallible (Unit {0}) × Registry
unfolding retire valid_label
retire_tenant l rounds now tenant_id r =
    if not (valid_label tenant_id)
      || teq tenant_id master_tenant_id
      || teq tenant_id retired_default_tenant_id
    then (err invalid_tenant, r)
    else retire l rounds now tenant_id r
