-- ===== src/TenantStore/Final.antt =====
-- The retirement of a tenant is final: no operation of tenant_repository.go changes a tombstone.
pub mod Transactions
use tikti.Base.{
  Option, List, ltb, leb, ◌==◌, if◌then◌else◌, ltb→lt, lt→ltb, leb→le, ==_iff, Bool-cases,
  Option-cases, bool_ext, &&_true, length, all, keep, length-append, length-keep-le, All,
  All-append, All-append_left, All-append_right, All-reverse, All-keep, All-map, All-of-all,
  all-of-All, Result, ok, err, ◌>>=◌, >>=-eq-ok, Text, codes, teq, tle, tlt, teq_sound, teq_refl,
  teq_iff, teq_comm, tle_refl, tle_total, tle_antisymm, tle_trans, has_prefix, is_empty, ℕ, zero,
  suc, ◌+◌, ◌-◌, ◌*◌, ◌/◌, ◌%◌, ◌^◌, ◌≤◌, ◌<◌, String, ◌≡◌, refl, sym, ap, ◌∙◌, ◌≡⟨◌⟩◌, ◌∎, ◌≢◌,
  ◌↔◌, ◌⊎◌, inl, inr, Bool, true, false, not, ◌&&◌, ◌||◌, none, some, [], ◌∷◌, ◌++◌, map, reverse,
  arith, is_empty_congr, same_texts, same_texts_iff, contains, is_nodup, contains-append,
  contains-keep, All-contains, All-of_contains, subset, contains-subset, insert, sort, IsSorted,
  IsStrict, contains-insert, contains-sort, All-insert, All-sort, length-insert, length-sort,
  sort-IsSorted, sort-IsStrict, sort_of_IsSorted, IsStrict-IsSorted, IsStrict-is_nodup,
  sort_of_IsStrict, IsStrict-ext, is_nodup-concat, contains_congr, add, add_all, contains-add,
  add-is_nodup, contains-add_all, add_all-is_nodup, IsFresh, IsFresh-nil, IsFresh-head,
  IsFresh-tail, IsFresh-cons, trim_space, trim_space_solid, IsSolid, lookup, store_at, drop_key,
  lookup-store_at, lookup-store_at_other, lookup-drop_key, lookup-drop_key_other,
}
use tikti.Domain.{master_tenant_id, retired_default_tenant_id, Fallible, Tenant}
use tikti.Identity.{active_tenant_identity, Letters}
use tikti.TenantStore.{
  prepare_tenant, blank, broken, write_attempts, retire_transaction, retire_legacy_default,
  create_transaction, retire_attempts, retire, create_attempts, public_tenant, create_if_absent,
  Round, set_if_absent, retire_stored, get, create, tenant_disabled, Stored, document, Registry,
  Ending, again, finished, put, settle, commit, is_retired_tenant, well_formed,
  decode_retained_tenant, inherit, overwrite, create_over, retire_current,
}
use tikti.TenantStore.Final.Transactions.{
  Kept, Kept-refl, Kept-trans, put-Kept, create_attempts-Kept, retire_attempts-Kept,
}

-- One operation on the registry, with what other clients do during it.
pub data Operation : Type 0 where
  creates : (ℕ → Round) → ℕ → Text → Tenant → Operation
  creates_if_absent : (Registry → Registry) → ℕ → Text → Tenant → Operation
  retires : (ℕ → Round) → ℕ → Text → Operation
  retires_legacy_default : Operation

abbrev pub perform : Letters → Operation → Registry → Registry
unfolding create create_if_absent retire retire_legacy_default
perform l (creates rounds now fresh tenant) r = (create l rounds now fresh tenant r).1
perform l (creates_if_absent meanwhile now fresh tenant) r =
    (create_if_absent l meanwhile now fresh tenant r).1
perform l (retires rounds now tenant_id) r = (retire l rounds now tenant_id r).1
perform l retires_legacy_default r = (retire_legacy_default r).1

abbrev pub perform_all : Letters → List Operation → Registry → Registry
perform_all l [] r = r
perform_all l (op ∷ ops) r = perform_all l ops (perform l op r)

-- The other clients keep the tombstone too.
abbrev pub IsCalm : Text → Operation → Type 0
IsCalm id (creates rounds now fresh tenant) =
    (n : ℕ) (r : Registry) → Kept id r ((rounds n).afterwards r)
IsCalm id (creates_if_absent meanwhile now fresh tenant) = (r : Registry) → Kept id r (meanwhile r)
IsCalm id (retires rounds now tenant_id) =
    (n : ℕ) (r : Registry) → Kept id r ((rounds n).afterwards r)
IsCalm id retires_legacy_default = Unit

if-1 :
    {A : Type 0} (P : Registry → Type 0) (b : Bool) (x y : A × Registry)
    → P x.1
    → P y.1
    → P (if b then x else y).1
if-1 P true x y h k = h
if-1 P false x y h k = k

set_if_absent-Kept :
    (l : Letters) (id : Text) (meanwhile : Registry → Registry) (now : ℕ) (tenant : Tenant)
    (o : Option Stored) (r : Registry)
    → ((s : Registry) → Kept id s (meanwhile s))
    → lookup tenant.id r.tenants ≡ o
    → Kept id r (set_if_absent l meanwhile now tenant o r).1
unfolding set_if_absent
set_if_absent-Kept l id meanwhile now tenant none r kept at =
    put-Kept id tenant r
      (λ tomb. let both : none ≡ some (document tomb.0 tomb.1) = sym at ∙ tomb.2 in cc)
set_if_absent-Kept l id meanwhile now tenant (some stored) r kept at = kept r

perform-Kept :
    (l : Letters) (id : Text) (op : Operation) (r : Registry)
    → teq retired_default_tenant_id id ≡ false
    → IsCalm id op
    → Kept id r (perform l op r)
unfolding create create_if_absent retire retire_legacy_default
perform-Kept l id (creates rounds now fresh tenant) r other calm =
    if-1 (Kept id r) (teq tenant.id retired_default_tenant_id) _ _ (Kept-refl id r)
      (create_attempts-Kept l id rounds calm now write_attempts (prepare_tenant now fresh tenant) r)
perform-Kept l id (creates_if_absent meanwhile now fresh tenant) r other calm =
    let prepared = prepare_tenant now fresh tenant in
    if-1 (Kept id r) (teq tenant.id retired_default_tenant_id) _ _ (Kept-refl id r) (
      if-1 (Kept id r) (not r.available) _ _ (Kept-refl id r)
        (set_if_absent-Kept l id meanwhile now prepared (lookup prepared.id r.tenants) r calm refl))
perform-Kept l id (retires rounds now tenant_id) r other calm =
    if-1 (Kept id r) (not (active_tenant_identity tenant_id) || teq tenant_id master_tenant_id) _ _
      (Kept-refl id r) (retire_attempts-Kept l id rounds calm now write_attempts tenant_id r)
perform-Kept l id retires_legacy_default r other calm =
    if-1 (Kept id r) (not r.available) _ _ (Kept-refl id r)
      (λ e t at retired. lookup-drop_key_other retired_default_tenant_id id r.tenants other ∙ at)

perform_all-Kept :
    (l : Letters) (id : Text) (ops : List Operation) (r : Registry)
    → teq retired_default_tenant_id id ≡ false
    → All (IsCalm id) ops
    → Kept id r (perform_all l ops r)
perform_all-Kept l id [] r other calm = Kept-refl id r
perform_all-Kept l id (op ∷ ops) r other calm =
    Kept-trans id r (perform l op r) (perform_all l ops (perform l op r))
      (perform-Kept l id op r other calm.0)
      (perform_all-Kept l id ops (perform l op r) other calm.1)

-- Once a tenant other than the legacy default is stored as retired, its tombstone stays as it is, and
-- Get never answers a tenant for it, after any run of the registry's operations during which the other
-- clients keep the tombstone too.
pub retirement_is_final :
    (l : Letters) (id : Text) (ops : List Operation) (r : Registry) (e : Bool) (t : Tenant)
    → teq retired_default_tenant_id id ≡ false
    → All (IsCalm id) ops
    → lookup id r.tenants ≡ some (document e t)
    → is_retired_tenant t ≡ true
    → (lookup id (perform_all l ops r).tenants ≡ some (document e t))
      × ((tenant : Tenant) → get id (perform_all l ops r) ≢ ok (some tenant))
unfolding get public_tenant
retirement_is_final l id ops r e t other calm at retired =
    let stays = perform_all-Kept l id ops r other calm e t at retired in
    let hidden : public_tenant (some (document e t)) ≡ ok none = rw (retired) refl in
    let nothing : public_tenant (lookup id (perform_all l ops r).tenants) ≡ ok none =
      ap public_tenant stays ∙ hidden in
    (stays, λ tenant h. ground (arith, h, nothing))
