-- ===== src/TenantStore/Final/Transactions.antt =====
-- The transactions of tenant_repository.go keep a tombstone.
use tikti.Base.{
  ap, Option, if◌then◌else◌, Bool-cases, &&_true, Text, teq, teq_sound, ℕ, zero, suc, ◌≡◌, refl,
  sym, ◌∙◌, inl, inr, Bool, true, false, not, none, some, arith, lookup, lookup-store_at_other,
}
use tikti.Domain.{Fallible, Tenant}
use tikti.Identity.{Letters}
use tikti.TenantStore.{
  blank, broken, retire_transaction, create_transaction, retire_attempts, create_attempts, Round,
  retire_stored, tenant_disabled, Stored, document, Registry, Ending, again, finished, put, settle,
  commit, is_retired_tenant, well_formed, decode_retained_tenant, inherit, overwrite, create_over,
  retire_current,
}

-- A tombstone of the tenant in one registry is the same in the other.
abbrev pub Kept : Text → Registry → Registry → Type 0
Kept id r r' =
    (e : Bool) (t : Tenant)
    → lookup id r.tenants ≡ some (document e t)
    → is_retired_tenant t ≡ true
    → lookup id r'.tenants ≡ some (document e t)

abbrev pub IsTombstone : Text → Registry → Type 0
IsTombstone id r =
    (e : Bool) × (t : Tenant) × (lookup id r.tenants ≡ some (document e t))
    × (is_retired_tenant t ≡ true)

abbrev pub KeptEnding : {Value : Type 0} → Text → Registry → Ending Value → Type 0
KeptEnding id r again = Unit
KeptEnding id r (finished result r') = Kept id r r'

pub Kept-refl : (id : Text) (r : Registry) → Kept id r r
Kept-refl id r = λ e t h k. h

pub Kept-trans : (id : Text) (r r' r'' : Registry) → Kept id r r' → Kept id r' r'' → Kept id r r''
Kept-trans id r r' r'' h k = λ e t at retired. k e t (h e t at retired) retired

pub put-Kept :
    (id : Text) (tenant : Tenant) (r : Registry)
    → (IsTombstone tenant.id r → ⊥)
    → Kept id r (put tenant r)
put-Kept id tenant r never = λ e t at retired. elim (Bool-cases (teq tenant.id id)) [
  | inl same ↦ absurd (never (e, t, rw (teq_sound tenant.id id same) at, retired))
  | inr other ↦ lookup-store_at_other tenant.id id (document true tenant) r.tenants other ∙ at
]

commit-Kept :
    {Value : Type 0} (id : Text) (raced : Bool) (value : Value) (tenant : Tenant) (r : Registry)
    → (IsTombstone tenant.id r → ⊥)
    → KeptEnding id r (commit raced value tenant r)
unfolding commit
commit-Kept id true value tenant r never = tt
commit-Kept id false value tenant r never = put-Kept id tenant r never

settle-Kept :
    {Value : Type 0} (id : Text) (retry : Registry → Fallible Value × Registry) (r after : Registry)
    (o : Ending Value)
    → KeptEnding id r o
    → Kept id r after
    → ((s : Registry) → Kept id s (retry s).1)
    → Kept id r (settle retry after o).1
unfolding settle
settle-Kept id retry r after again h moved tries =
    Kept-trans id r after (retry after).1 moved (tries after)
settle-Kept id retry r after (finished result r') h moved tries = h

pub if-Kept :
    {Value : Type 0} (id : Text) (r : Registry) (b : Bool) (x y : Ending Value)
    → (b ≡ true → KeptEnding id r x)
    → (b ≡ false → KeptEnding id r y)
    → KeptEnding id r (if b then x else y)
if-Kept id r true x y h k = h refl
if-Kept id r false x y h k = k refl

pub if-some : (b : Bool) (t : Tenant) {c : Tenant} → (if b then some t else none) ≡ some c → t ≡ c
if-some true t h = cc
if-some false t h = cc

document-inj : (e e' : Bool) (t t' : Tenant) → some (document e t) ≡ some (document e' t') → t ≡ t'
document-inj e e' t t' h = cc

module _ (l : Letters) where
  pub decode-document :
      (id : Text) (now : ℕ) (e : Bool) (t : Tenant) {c : Tenant}
      → decode_retained_tenant l id now (document e t) ≡ some c
      → t ≡ c
  unfolding decode_retained_tenant
  decode-document id now e t h = if-some (well_formed l id now e t) t h

  -- What is decoded of a tombstone is retired.
  decode-retired :
      (id : Text) (now : ℕ) (stored : Stored) (r : Registry) {c : Tenant}
      → lookup id r.tenants ≡ some stored
      → decode_retained_tenant l id now stored ≡ some c
      → IsTombstone id r
      → is_retired_tenant c ≡ true
  decode-retired id now stored r {c} at h (e, t, there, retired) =
      let one : stored ≡ document e t = ground (arith, sym at ∙ there) in
      let same : t ≡ c =
        decode-document id now e t (sym (ap (decode_retained_tenant l id now) one) ∙ h) in
      ap is_retired_tenant (sym same) ∙ retired

  overwrite-Kept :
      (id : Text) (now : ℕ) (raced : Bool) (tenant : Tenant) (o : Option Tenant) (r : Registry)
      → ((c : Tenant) → o ≡ some c → IsTombstone tenant.id r → is_retired_tenant c ≡ true)
      → KeptEnding id r (overwrite l now raced tenant o r)
  unfolding overwrite inherit
  overwrite-Kept id now raced tenant none r read = Kept-refl id r
  overwrite-Kept id now raced tenant (some c) r read =
      if-Kept id r (is_retired_tenant c) _ _ (λ _. Kept-refl id r)
        (λ live.
          if-Kept id r (not (well_formed l tenant.id now true (inherit l tenant c))) _ _
            (λ _. Kept-refl id r)
            (λ _.
              commit-Kept id raced (inherit l tenant c) (inherit l tenant c) r
                (λ tomb. ground (arith, live, read c refl tomb))))

  create_over-Kept :
      (id : Text) (now : ℕ) (raced : Bool) (tenant : Tenant) (o : Option Stored) (r : Registry)
      → lookup tenant.id r.tenants ≡ o
      → KeptEnding id r (create_over l now raced tenant o r)
  unfolding create_over
  create_over-Kept id now raced tenant none r at =
      commit-Kept id raced tenant tenant r
        (λ tomb. let both : none ≡ some (document tomb.0 tomb.1) = sym at ∙ tomb.2 in cc)
  create_over-Kept id now raced tenant (some stored) r at =
      overwrite-Kept id now raced tenant (decode_retained_tenant l tenant.id now stored) r
        (λ c h tomb. decode-retired tenant.id now stored r at h tomb)

  retire_current-Kept :
      (id target : Text) (now : ℕ) (raced : Bool) (o : Option Tenant) (r : Registry)
      → ((c : Tenant)
          → o ≡ some c
          → (c.id ≡ target) × (IsTombstone target r → is_retired_tenant c ≡ true))
      → KeptEnding id r (retire_current l now raced o r)
  unfolding retire_current
  retire_current-Kept id target now raced none r read = Kept-refl id r
  retire_current-Kept id target now raced (some c) r read =
      if-Kept id r (is_retired_tenant c) _ _ (λ _. Kept-refl id r)
        (λ live.
          commit-Kept id raced tt (record c { status = tenant_disabled; retired_at = some now }) r
            (λ tomb. ground (arith, live, (read c refl).1 (rw (← (read c refl).0) tomb))))

  if-some_test :
      (b : Bool) (t : Tenant) {c : Tenant} → (if b then some t else none) ≡ some c → b ≡ true
  if-some_test true t h = refl
  if-some_test false t h = cc

  -- What is decoded has the id that it is stored under.
  pub decode-id :
      (id : Text) (now : ℕ) (stored : Stored) {c : Tenant}
      → decode_retained_tenant l id now stored ≡ some c
      → c.id ≡ id
  unfolding decode_retained_tenant well_formed
  decode-id id now blank h = cc
  decode-id id now broken h = cc
  decode-id id now (document e t) h =
      let good : well_formed l id now e t ≡ true = if-some_test (well_formed l id now e t) t h in
      ap (λ (u : Tenant). u.id) (sym (if-some (well_formed l id now e t) t h))
      ∙ teq_sound t.id id (&&_true (teq t.id id) _ good).0

  retire_stored-Kept :
      (id target : Text) (now : ℕ) (raced : Bool) (o : Option Stored) (r : Registry)
      → lookup target r.tenants ≡ o
      → KeptEnding id r (retire_stored l now raced target o r)
  unfolding retire_stored
  retire_stored-Kept id target now raced none r at = Kept-refl id r
  retire_stored-Kept id target now raced (some stored) r at =
      retire_current-Kept id target now raced (decode_retained_tenant l target now stored) r (λ c h.
        (decode-id target now stored h, λ tomb. decode-retired target now stored r at h tomb))

module _ (l : Letters) (id : Text) (rounds : ℕ → Round)
    (kept : (n : ℕ) (r : Registry) → Kept id r ((rounds n).afterwards r)) where
  pub create_attempts-Kept :
      (now n : ℕ) (tenant : Tenant) (r : Registry)
      → Kept id r (create_attempts l rounds now n tenant r).1
  unfolding create_attempts create_transaction
  create_attempts-Kept now zero tenant r = Kept-refl id r
  create_attempts-Kept now (suc n) tenant r =
      settle-Kept id (create_attempts l rounds now n tenant) r ((rounds n).afterwards r)
        (create_transaction l now (rounds n).raced tenant r)
        (if-Kept id r (not r.available) _ _ (λ _. Kept-refl id r)
          (λ _.
            create_over-Kept l id now (rounds n).raced tenant (lookup tenant.id r.tenants) r refl))
        (kept n r) (λ s. create_attempts-Kept now n tenant s)

  pub retire_attempts-Kept :
      (now n : ℕ) (target : Text) (r : Registry)
      → Kept id r (retire_attempts l rounds now n target r).1
  unfolding retire_attempts retire_transaction
  retire_attempts-Kept now zero target r = Kept-refl id r
  retire_attempts-Kept now (suc n) target r =
      settle-Kept id (retire_attempts l rounds now n target) r ((rounds n).afterwards r)
        (retire_transaction l now (rounds n).raced target r)
        (if-Kept id r (not r.available) _ _ (λ _. Kept-refl id r)
          (λ _.
            retire_stored-Kept l id target now (rounds n).raced (lookup target r.tenants) r refl))
        (kept n r) (λ s. retire_attempts-Kept now n target s)
