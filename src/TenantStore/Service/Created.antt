-- ===== src/TenantStore/Service/Created.antt =====
-- A tenant that CreateWithID has created is what Get answers.
use tikti.Base.{
  ap, ◌≡◌, Option, leb, ◌==◌, if◌then◌else◌, Bool-cases, &&_true, length, all, All-map, All-of-all,
  ok, err, Text, teq, is_empty, ℕ, refl, sym, ◌∙◌, ◌≢◌, inl, inr, Bool, true, false, not, ◌&&◌,
  ◌||◌, none, some, arith, trim_space, trim_space_solid, IsSolid, lookup, lookup-store_at, if-true,
  if-false,
}
use tikti.Domain.{
  tenant_invariant, master_tenant_id, retired_default_tenant_id, Error, Fallible, Tenant,
  tenant_conflict, repository_failure, invalid_argument,
}
use tikti.Identity.{Letters, tenant_byte}
use tikti.TenantStore.{
  public_tenant, get, is_retired_tenant, document, Stored, Registry, put, prepare_tenant,
  replay_tenant, replay_stored, replay, set_if_absent, create_if_absent, decode_retained_tenant,
}
use tikti.Role.{first_byte, last_byte}
use tikti.TenantStore.Service.{
  Names, TenantResp, valid_label, tenant_response, normalized_name, valid_stored_tenant,
  response_of, get_tenant, proposed, creatable, valid_name, reserved_name, master_tenant_name,
  create_with_id, agreed,
}

-- A result is no error.
not-error :
    {A : Type 0} (e : Error) (r last : Registry) (a : A)
    → ◌≢◌ {A = Fallible A × Registry} (err e, r) (ok a, last)
not-error {A} e r last a h =
    let first : ◌≡◌ {A = Fallible A} (err e) (ok a) = ap (λ (p : Fallible A × Registry). p.0) h in
    cc

agreed-eq-ok :
    (names : Names) (name slug : Text) (result : Fallible (Tenant × Bool) × Registry)
    {resp : TenantResp} {created : Bool} {last : Registry}
    → agreed names name slug result ≡ (ok (resp, created), last)
    → (tenant : Tenant) × (result ≡ (ok (tenant, created), last)) × (tenant_response tenant ≡ resp)
unfolding agreed
agreed-eq-ok names name slug (err e, r) {resp} {created} {last} h =
    absurd (not-error e r last (resp, created) h)
agreed-eq-ok names name slug (ok (existing, fresh), r) {resp} {created} {last} h =
    let guard = not (teq existing.name name) || not (teq existing.slug slug) in
    elim (Bool-cases guard) [
      | inl bad ↦
          absurd
            (not-error tenant_conflict r last (resp, created) (sym (if-true guard _ _ bad) ∙ h))
      | inr good ↦
          let same = sym (if-false guard _ _ good) ∙ h in
          let value : ◌≡◌ {A = Fallible (TenantResp × Bool)} (ok (tenant_response existing, fresh))
              (ok (resp, created)) =
            ap (λ (p : Fallible (TenantResp × Bool) × Registry). p.0) same in
          let state : r ≡ last = ap (λ (p : Fallible (TenantResp × Bool) × Registry). p.1) same in
          let flag : fresh ≡ created = cc in (existing, rw (state, flag) refl, cc)
    ]

-- Only a key that was absent is answered as new.
replay_tenant-old :
    (l : Letters) (o : Option Tenant) {tenant : Tenant} → replay_tenant l o ≢ ok (tenant, true)
unfolding replay_tenant
replay_tenant-old l none h = cc
replay_tenant-old l (some t) h = elim (Bool-cases (is_retired_tenant t)) [
  | inl e ↦
      let wrong = sym (if-true (is_retired_tenant t) (err tenant_conflict) (ok (t, false)) e) ∙ h in
      cc
  | inr e ↦
      let wrong =
        sym (if-false (is_retired_tenant t) (err tenant_conflict) (ok (t, false)) e) ∙ h in
      cc
]

replay_stored-old :
    (l : Letters) (now : ℕ) (id : Text) (o : Option Stored) {tenant : Tenant}
    → replay_stored l now id o ≢ ok (tenant, true)
unfolding replay_stored
replay_stored-old l now id none h = cc
replay_stored-old l now id (some s) h = replay_tenant-old l (decode_retained_tenant l id now s) h

replay-old :
    (l : Letters) (now : ℕ) (id : Text) (r : Registry) {tenant : Tenant}
    → replay l now id r ≢ ok (tenant, true)
unfolding replay
replay-old l now id r h = elim (Bool-cases (not r.available)) [
  | inl e ↦ let wrong = sym (if-true (not r.available) (err repository_failure) _ e) ∙ h in cc
  | inr e ↦
      replay_stored-old l now id (lookup id r.tenants)
        (sym (if-false (not r.available) (err repository_failure) _ e) ∙ h)
]

set_if_absent-new :
    (l : Letters) (meanwhile : Registry → Registry) (now : ℕ) (tenant : Tenant) (o : Option Stored)
    (r : Registry) {t : Tenant} {last : Registry}
    → set_if_absent l meanwhile now tenant o r ≡ (ok (t, true), last)
    → (tenant ≡ t) × (put tenant r ≡ last)
unfolding set_if_absent
set_if_absent-new l meanwhile now tenant none r {t} {last} h =
    let value : ◌≡◌ {A = Fallible (Tenant × Bool)} (ok (tenant, true)) (ok (t, true)) =
      ap (λ (p : Fallible (Tenant × Bool) × Registry). p.0) h in
    (cc, ap (λ (p : Fallible (Tenant × Bool) × Registry). p.1) h)
set_if_absent-new l meanwhile now tenant (some s) r h = absurd (
    replay-old l now tenant.id (meanwhile r)
      (ap (λ (p : Fallible (Tenant × Bool) × Registry). p.0) h))

-- A tenant is created under its own id, where Redis answers.
create_if_absent-new :
    (l : Letters) (meanwhile : Registry → Registry) (now : ℕ) (fresh : Text) (tenant : Tenant)
    (r : Registry) {t : Tenant} {last : Registry}
    → create_if_absent l meanwhile now fresh tenant r ≡ (ok (t, true), last)
    → (prepare_tenant now fresh tenant ≡ t)
      × (put (prepare_tenant now fresh tenant) r ≡ last)
      × (r.available ≡ true)
unfolding create_if_absent
create_if_absent-new l meanwhile now fresh tenant r {t} {last} h =
    let prepared = prepare_tenant now fresh tenant in
    let reserved = teq tenant.id retired_default_tenant_id in
    elim (Bool-cases reserved) [
      | inl e ↦
          absurd (not-error invalid_argument r last (t, true) (sym (if-true reserved _ _ e) ∙ h))
      | inr e ↦
          let h1 = sym (if-false reserved _ _ e) ∙ h in
          elim (Bool-cases (not r.available)) [
            | inl down ↦ absurd (
                not-error repository_failure r last (t, true)
                  (sym (if-true (not r.available) _ _ down) ∙ h1))
            | inr up ↦
                let (same, moved) =
                  set_if_absent-new l meanwhile now prepared (lookup prepared.id r.tenants) r
                    (sym (if-false (not r.available) _ _ up) ∙ h1) in
                (same, moved, ground (arith, up))
          ]
    ]

&&-intro : (a b : Bool) → a ≡ true → b ≡ true → (a && b) ≡ true
&&-intro a b h k = ground (arith, h, k)

-- What may be created is a valid stored tenant.
creatable-valid :
    (names : Names) (id name slug : Text) (at : ℕ)
    → creatable names id name slug ≡ true
    → (valid_stored_tenant names (record (proposed names id name slug) { created_at = at }) ≡ true)
      × (valid_label id ≡ true)
      × (teq id retired_default_tenant_id ≡ false)
unfolding creatable valid_stored_tenant proposed
creatable-valid names id name slug at h =
    let (h4, brand) =
      &&_true _
        (if teq id master_tenant_id
          then teq name master_tenant_name
          else not (reserved_name names name))
        h in
    let (h3, other) = &&_true _ (not (teq id retired_default_tenant_id)) h4 in
    let (h2, same) = &&_true _ (teq slug id) h3 in
    let (label, named) = &&_true (valid_label id) (valid_name names name) h2 in
    let free : (teq id master_tenant_id || not (reserved_name names name)) ≡ true =
      elim (Bool-cases (teq id master_tenant_id)) [
        | inl master ↦ ap (λ (b : Bool). b || not (reserved_name names name)) master
        | inr workload ↦
            ap (λ (b : Bool). b || not (reserved_name names name)) workload
            ∙ sym (
                if-false (teq id master_tenant_id) (teq name master_tenant_name)
                  (not (reserved_name names name)) workload)
            ∙ brand
      ] in
    (
      &&-intro _ _ (&&-intro _ _ (&&-intro _ _ (&&-intro _ _ other label) same) named) free,
      label,
      ground (arith, other),
    )

tenant_byte-IsSolid : (c : ℕ) → tenant_byte c ≡ true → IsSolid c
unfolding tenant_byte
tenant_byte-IsSolid c h = ground (arith, h)

-- A label is not empty, and trimming leaves it.
label-present :
    (id : Text) → valid_label id ≡ true → (is_empty id ≡ false) × (is_empty (trim_space id) ≡ false)
unfolding valid_label
label-present id h =
    let (h3, bytes) = &&_true _ (all tenant_byte id) h in
    let (h2, last) = &&_true _ (not (last_byte id == b'-')) h3 in
    let (h1, first) = &&_true _ (not (first_byte id == b'-')) h2 in
    let (given, bounded) = &&_true (not (is_empty id)) (leb (length id) 63) h1 in
    let solid =
      All-map (λ c. tenant_byte c ≡ true) IsSolid tenant_byte-IsSolid id
        (All-of-all tenant_byte id bytes) in
    let present : is_empty id ≡ false = ground (arith, given) in
    (present, ap is_empty (trim_space_solid id solid) ∙ present)

-- The new tenant of a label.
prepared_tenant :
    (names : Names) (now : ℕ) (fresh id name slug : Text)
    → is_empty id ≡ false
    → prepare_tenant now fresh (proposed names id name slug)
      ≡ record (proposed names id name slug) { created_at = now }
unfolding prepare_tenant proposed is_empty
prepared_tenant names now fresh id name slug given = rw (if-false (is_empty id) fresh id given) refl

get-put :
    (tenant : Tenant) (r : Registry)
    → r.available ≡ true
    → teq tenant.id retired_default_tenant_id ≡ false
    → tenant.retired_at ≡ none
    → get tenant.id (put tenant r) ≡ ok (some tenant)
unfolding get public_tenant is_retired_tenant
get-put tenant r up other live =
    if-false (teq tenant.id retired_default_tenant_id) _ _ other
    ∙ if-false (not r.available) _ _ (ap not up)
    ∙ ap public_tenant (lookup-store_at tenant.id (document true tenant) r.tenants)
    ∙ if-false (is_retired_tenant tenant) (ok none) (ok (some tenant)) (rw (live) refl)

-- Where CreateWithID answers that a tenant is new, Get of its id answers the same tenant after it.
pub created_tenant_is_found :
    (names : Names) (l : Letters) (meanwhile : Registry → Registry) (now : ℕ)
    (fresh id name slug : Text) (r : Registry) {resp : TenantResp} {last : Registry}
    → create_with_id names l meanwhile now fresh id name slug r ≡ (ok (resp, true), last)
    → get_tenant names id last ≡ ok resp
unfolding create_with_id get_tenant
created_tenant_is_found names l meanwhile now fresh id name slug r {resp} {last} h =
    let given = normalized_name names name in
    elim (Bool-cases (creatable names id given slug)) [
      | inr refused ↦ absurd (
          not-error invalid_argument r last (resp, true)
            (sym (if-true (not (creatable names id given slug)) _ _ (ap not refused)) ∙ h))
      | inl allowed ↦
          let (stored, created, answered) =
            agreed-eq-ok names given slug
              (create_if_absent l meanwhile now fresh (proposed names id given slug) r)
              (sym (if-false (not (creatable names id given slug)) _ _ (ap not allowed)) ∙ h) in
          let (same, moved, up) =
            create_if_absent-new l meanwhile now fresh (proposed names id given slug) r created in
          let (valid, label, other) = creatable-valid names id given slug now allowed in
          let (present, trimmed) = label-present id label in
          let tenant = record (proposed names id given slug) { created_at = now } in
          let prepared = prepared_tenant names now fresh id given slug present in
          let at_last : last ≡ put tenant r = sym moved ∙ ap (λ t. put t r) prepared in
          if-false (is_empty (trim_space id)) _ _ trimmed
          ∙ if-false (teq id retired_default_tenant_id) _ _ other
          ∙ ap (λ s. response_of names (get id s)) at_last
          ∙ ap (response_of names) (get-put tenant r up other refl)
          ∙ if-false (not (valid_stored_tenant names tenant)) (err tenant_invariant)
              (ok (tenant_response tenant)) (ap not valid)
          ∙ ap (λ s. ok (tenant_response s)) (sym prepared ∙ same)
          ∙ ap ok answered
    ]
