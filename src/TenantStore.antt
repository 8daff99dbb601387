-- ===== src/TenantStore.antt =====
-- internal/repository/tenant_repository.go and retained_tenant_repository.go: the registry of tenants in
-- Redis. Times are nanoseconds, the zero time is 0.
pub mod Final
pub mod Service
pub mod Tests
use tikti.Base.{
  ltb, leb, ◌==◌, if◌then◌else◌, ltb→lt, lt→ltb, leb→le, ==_iff, Bool-cases, Option-cases, bool_ext,
  &&_true, length, all, keep, length-append, length-keep-le, All, All-append, All-append_left,
  All-append_right, All-reverse, All-keep, All-map, All-of-all, all-of-All, Result, ok, err, ◌>>=◌,
  >>=-eq-ok, Text, codes, teq, tle, tlt, teq_sound, teq_refl, teq_iff, teq_comm, tle_refl,
  tle_total, tle_antisymm, tle_trans, has_prefix, is_empty, ℕ, zero, suc, ◌+◌, ◌-◌, ◌*◌, ◌/◌, ◌%◌,
  ◌^◌, ◌≤◌, ◌<◌, String, ◌≡◌, refl, sym, ap, ◌∙◌, ◌≡⟨◌⟩◌, ◌∎, ◌≢◌, ◌↔◌, ◌⊎◌, inl, inr, Bool, true,
  false, not, ◌&&◌, ◌||◌, Option, none, some, List, [], ◌∷◌, ◌++◌, map, reverse, arith,
  is_empty_congr, same_texts, same_texts_iff, contains, is_nodup, contains-append, contains-keep,
  All-contains, All-of_contains, subset, contains-subset, insert, sort, IsSorted, IsStrict,
  contains-insert, contains-sort, All-insert, All-sort, length-insert, length-sort, sort-IsSorted,
  sort-IsStrict, sort_of_IsSorted, IsStrict-IsSorted, IsStrict-is_nodup, sort_of_IsStrict,
  IsStrict-ext, is_nodup-concat, contains_congr, add, add_all, contains-add, add-is_nodup,
  contains-add_all, add_all-is_nodup, IsFresh, IsFresh-nil, IsFresh-head, IsFresh-tail,
  IsFresh-cons, trim_space, trim_space_solid, IsSolid, lookup, store_at, drop_key, lookup-store_at,
  lookup-store_at_other, lookup-drop_key, lookup-drop_key_other,
}
use tikti.Domain.{
  Error, Fallible, Tenant, tenant_active, master_tenant_id, retired_default_tenant_id,
  invalid_argument, invalid_tenant, tenant_conflict, tenant_invariant, version_conflict,
  repository_failure,
}
use tikti.Identity.{Letters, active_tenant_identity, valid_tenant_name}
use tikti.Access.{present, check, ◌>>◌}

abbrev pub tenant_disabled : Text
tenant_disabled = codes "DISABLED"

-- A string of the hash `tenants`: the empty one, one that json.Unmarshal refuses, and a document. The
-- document's flag says that it is an exact object of at most 4096 bytes with canonical times, as
-- json.Marshal writes it.
pub data Stored : Type 0 where
  blank broken : Stored
  document : Bool → Tenant → Stored

pub record Registry : Type 0 where
  pub available : Bool
  pub tenants : List (Text × Stored)

abbrev pub write_attempts : ℕ
write_attempts = 8

-- What other clients do at one attempt of a transaction: whether a write of theirs makes it fail, and
-- what the registry is afterwards.
pub record Round : Type 0 where
  pub raced : Bool
  pub afterwards : Registry → Registry

unfoldable pub valid_tenant_status : Text → Bool
valid_tenant_status status = teq status tenant_active || teq status tenant_disabled

-- The tombstone of a tenant that was created, at a time not after the observation.
unfoldable pub valid_tombstone : Tenant → ℕ → Bool
valid_tombstone tenant observed = elim tenant.retired_at [
  | none ↦ true
  | some retired ↦
      teq tenant.status tenant_disabled
      && not (retired == 0)
      && not (ltb retired tenant.created_at)
      && not (ltb observed retired)
]

unfoldable pub is_retired_tenant : Tenant → Bool
is_retired_tenant tenant = elim tenant.retired_at [ none ↦ false | some at ↦ true ]

-- prepareTenant; `fresh` is the new UUID.
unfoldable pub prepare_tenant : ℕ → Text → Tenant → Tenant
prepare_tenant now fresh tenant = record tenant {
  id = if is_empty tenant.id then fresh else tenant.id;
  status = if is_empty tenant.status then tenant_active else tenant.status;
  created_at = if tenant.created_at == 0 then now else tenant.created_at;
}

abbrev pub put : Tenant → Registry → Registry
put tenant r = record r { tenants = store_at tenant.id (document true tenant) r.tenants }

-- The end of a transaction that writes, or is tried again.
pub data Ending (Value : Type 0) : Type 0 where
  again : Ending Value
  finished : Fallible Value → Registry → Ending Value

unfoldable pub settle :
    {Value : Type 0}
    → (Registry → Fallible Value × Registry)
    → Registry
    → Ending Value
    → Fallible Value × Registry
settle retry r again = retry r
settle retry r (finished result r') = (result, r')

unfoldable pub commit : {Value : Type 0} → Bool → Value → Tenant → Registry → Ending Value
commit raced value tenant r = if raced then again else finished (ok value) (put tenant r)

module _ (l : Letters) where
  unfoldable pub well_formed : Text → ℕ → Bool → Tenant → Bool
  unfolding active_tenant_identity valid_tenant_name valid_tenant_status valid_tombstone
  well_formed tenant_id observed exact tenant =
      teq tenant.id tenant_id
      && (exact
          && active_tenant_identity tenant_id
          && teq tenant.slug tenant_id
          && valid_tenant_name l tenant.name
          && valid_tenant_status tenant.status
          && not (tenant.created_at == 0)
          && not (ltb observed tenant.created_at)
          && valid_tombstone tenant observed)

  -- decodeRetainedTenant
  unfoldable pub decode_retained_tenant : Text → ℕ → Stored → Option Tenant
  unfolding well_formed
  decode_retained_tenant tenant_id observed blank = none
  decode_retained_tenant tenant_id observed broken = none
  decode_retained_tenant tenant_id observed (document exact tenant) =
      if well_formed tenant_id observed exact tenant then some tenant else none

  -- The candidate of Create that takes a stored tenant's creation time and its disabled status.
  unfoldable pub inherit : Tenant → Tenant → Tenant
  inherit tenant current = record tenant {
    created_at = current.created_at;
    status = if teq current.status tenant_disabled then tenant_disabled else tenant.status;
  }

  unfoldable pub overwrite : ℕ → Bool → Tenant → Option Tenant → Registry → Ending Tenant
  unfolding is_retired_tenant inherit commit well_formed
  overwrite now raced tenant none r = finished (err tenant_invariant) r
  overwrite now raced tenant (some current) r =
      if is_retired_tenant current
      then finished (err tenant_conflict) r
      else if not (well_formed tenant.id now true (inherit tenant current))
      then finished (err tenant_invariant) r
      else commit raced (inherit tenant current) (inherit tenant current) r

  unfoldable pub create_over : ℕ → Bool → Tenant → Option Stored → Registry → Ending Tenant
  unfolding overwrite commit decode_retained_tenant
  create_over now raced tenant none r = commit raced tenant tenant r
  create_over now raced tenant (some stored) r =
      overwrite now raced tenant (decode_retained_tenant tenant.id now stored) r

  -- The transaction of Create.
  unfoldable pub create_transaction : ℕ → Bool → Tenant → Registry → Ending Tenant
  unfolding create_over
  create_transaction now raced tenant r =
      if not r.available
      then finished (err repository_failure) r
      else create_over now raced tenant (lookup tenant.id r.tenants) r

  unfoldable pub create_attempts :
      (ℕ → Round) → ℕ → ℕ → Tenant → Registry → Fallible Tenant × Registry
  unfolding create_transaction settle
  create_attempts rounds now zero tenant r = (err version_conflict, r)
  create_attempts rounds now (suc n) tenant r =
      settle (create_attempts rounds now n tenant) ((rounds n).afterwards r)
        (create_transaction now (rounds n).raced tenant r)

  -- Create, for a tenant that is there
  unfoldable pub create : (ℕ → Round) → ℕ → Text → Tenant → Registry → Fallible Tenant × Registry
  unfolding create_attempts prepare_tenant
  create rounds now fresh tenant r =
      if teq tenant.id retired_default_tenant_id
      then (err invalid_argument, r)
      else create_attempts rounds now write_attempts (prepare_tenant now fresh tenant) r

  unfoldable pub replay_tenant : Option Tenant → Fallible (Tenant × Bool)
  unfolding is_retired_tenant
  replay_tenant none = err tenant_invariant
  replay_tenant (some existing) =
      if is_retired_tenant existing then err tenant_conflict else ok (existing, false)

  unfoldable pub replay_stored : ℕ → Text → Option Stored → Fallible (Tenant × Bool)
  unfolding replay_tenant decode_retained_tenant
  replay_stored now tenant_id none = err tenant_conflict
  replay_stored now tenant_id (some stored) =
      replay_tenant (decode_retained_tenant tenant_id now stored)

  -- The answer of CreateIfAbsent to a key that is there, read after what other clients do meanwhile.
  unfoldable pub replay : ℕ → Text → Registry → Fallible (Tenant × Bool)
  unfolding replay_stored
  replay now tenant_id r =
      if not r.available
      then err repository_failure
      else replay_stored now tenant_id (lookup tenant_id r.tenants)

  unfoldable pub set_if_absent :
      (Registry → Registry)
      → ℕ
      → Tenant
      → Option Stored
      → Registry
      → Fallible (Tenant × Bool) × Registry
  unfolding replay
  set_if_absent meanwhile now tenant none r = (ok (tenant, true), put tenant r)
  set_if_absent meanwhile now tenant (some stored) r =
      (replay now tenant.id (meanwhile r), meanwhile r)

  -- CreateIfAbsent, for a tenant that is there
  unfoldable pub create_if_absent :
      (Registry → Registry) → ℕ → Text → Tenant → Registry → Fallible (Tenant × Bool) × Registry
  unfolding set_if_absent prepare_tenant
  create_if_absent meanwhile now fresh tenant r =
      let prepared = prepare_tenant now fresh tenant in
      if teq tenant.id retired_default_tenant_id
      then (err invalid_argument, r)
      else if not r.available
      then (err repository_failure, r)
      else set_if_absent meanwhile now prepared (lookup prepared.id r.tenants) r

  unfoldable pub retire_current : ℕ → Bool → Option Tenant → Registry → Ending (Unit {0})
  unfolding is_retired_tenant commit
  retire_current now raced none r = finished (err tenant_invariant) r
  retire_current now raced (some tenant) r =
      if is_retired_tenant tenant
      then finished (ok tt) r
      else commit raced tt (record tenant { status = tenant_disabled; retired_at = some now }) r

  unfoldable pub retire_stored : ℕ → Bool → Text → Option Stored → Registry → Ending (Unit {0})
  unfolding retire_current decode_retained_tenant
  retire_stored now raced tenant_id none r = finished (ok tt) r
  retire_stored now raced tenant_id (some stored) r =
      retire_current now raced (decode_retained_tenant tenant_id now stored) r

  -- The transaction of Retire.
  unfoldable pub retire_transaction : ℕ → Bool → Text → Registry → Ending (Unit {0})
  unfolding retire_stored
  retire_transaction now raced tenant_id r =
      if not r.available
      then finished (err repository_failure) r
      else retire_stored now raced tenant_id (lookup tenant_id r.tenants) r

  unfoldable pub retire_attempts :
      (ℕ → Round) → ℕ → ℕ → Text → Registry → Fallible (Unit {0}) × Registry
  unfolding retire_transaction settle
  retire_attempts rounds now zero tenant_id r = (err version_conflict, r)
  retire_attempts rounds now (suc n) tenant_id r =
      settle (retire_attempts rounds now n tenant_id) ((rounds n).afterwards r)
        (retire_transaction now (rounds n).raced tenant_id r)

  -- Retire
  unfoldable pub retire : (ℕ → Round) → ℕ → Text → Registry → Fallible (Unit {0}) × Registry
  unfolding retire_attempts active_tenant_identity
  retire rounds now tenant_id r =
      if not (active_tenant_identity tenant_id) || teq tenant_id master_tenant_id
      then (err invalid_tenant, r)
      else retire_attempts rounds now write_attempts tenant_id r

  -- IsRetired
  unfoldable pub is_retired : ℕ → Text → Registry → Fallible Bool
  unfolding decode_retained_tenant is_retired_tenant active_tenant_identity
  is_retired now tenant_id r =
      if not (active_tenant_identity tenant_id) || teq tenant_id master_tenant_id
      then err invalid_tenant
      else if not r.available
      then err repository_failure
      else elim (lookup tenant_id r.tenants) [
        | none ↦ ok false
        | some stored ↦ elim (decode_retained_tenant tenant_id now stored) [
          | none ↦ err tenant_invariant
          | some tenant ↦ ok (is_retired_tenant tenant)
        ]
      ]

unfoldable pub public_tenant : Option Stored → Fallible (Option Tenant)
unfolding is_retired_tenant
public_tenant none = ok none
public_tenant (some blank) = ok none
public_tenant (some broken) = err repository_failure
public_tenant (some (document exact tenant)) =
    if is_retired_tenant tenant then ok none else ok (some tenant)

-- Get
unfoldable pub get : Text → Registry → Fallible (Option Tenant)
unfolding public_tenant
get tenant_id r =
    if teq tenant_id retired_default_tenant_id
    then ok none
    else if not r.available
    then err repository_failure
    else public_tenant (lookup tenant_id r.tenants)

-- RetireLegacyDefault
unfoldable pub retire_legacy_default : Registry → Fallible Bool × Registry
retire_legacy_default r = if not r.available then (err repository_failure, r) else (
  ok (elim (lookup retired_default_tenant_id r.tenants) [ none ↦ false | some stored ↦ true ]),
  record r { tenants = drop_key retired_default_tenant_id r.tenants },
)
