-- ===== src/TenantStore/Tests.antt =====
-- Runs of the registry of tenants on concrete data, and the theorems applied at them.
use tikti.Base.{
  ltb, length, ok, Text, codes, teq, has_prefix, is_empty, ℕ, ◌≡◌, refl, ◌≢◌, true, false, none,
  some, List, [], ◌∷◌, trim_space, lookup, store_at,
}
use tikti.Domain.{Tenant, tenant_active}
use tikti.Identity.{Letters}
use tikti.TenantName.{
  skeleton_of, has_infix, reserved_master, valid, skeleton_of, has_infix, reserved_master, valid,
  Unicode,
}
use tikti.TenantStore.{is_retired_tenant, Registry, Round, document, tenant_disabled, retire, get}
use tikti.TenantStore.Final.{
  Operation, creates, creates_if_absent, retires, perform_all, retirement_is_final,
}
use tikti.TenantStore.Service.{
  tenant_response, Names, TenantResp, tenant_type_workload, create_with_id, get_tenant,
}
use tikti.TenantStore.Service.Created.{created_tenant_is_found}

abbrev letters : Letters
letters = record {
  to_lower = λ s. s;
  equal_fold = teq;
  valid_string = λ s. true;
  rune_count = λ s. length s;
  has_control = λ s. false;
}

abbrev unicode : Unicode
unicode = record {
  nfkc = λ s. s;
  nfkd = λ s. s;
  trim = λ s. s;
  valid_utf8 = λ s. true;
  is_control = λ c. false;
  is_format = λ c. false;
  is_print = λ c. true;
  is_mark = λ c. false;
  is_letter = λ c. true;
  is_digit = λ c. false;
  to_lower = λ c. c;
}

abbrev names : Names
names = record { unicode = unicode; runes = λ s. s; bytes = λ s. s }

abbrev empty : Registry
empty = record { available = true; tenants = [] }

abbrev acme : Text
acme = codes "acme"

abbrev calm : ℕ → Round
calm n = record { raced = false; afterwards = λ r. r }

abbrev contended : ℕ → Round
contended n = record { raced = ltb 5 n; afterwards = λ r. r }

abbrev acme_response : TenantResp
acme_response = record {
  id = acme;
  slug = acme;
  name = acme;
  status = tenant_active;
  created_at = 7;
  tenant_type = tenant_type_workload;
}

abbrev with_acme : Registry
with_acme = (create_with_id names letters (λ r. r) 7 [] acme acme acme empty).1

creates_acme :
    create_with_id names letters (λ r. r) 7 [] acme acme acme empty
    ≡ (ok (acme_response, true), with_acme)
unfolding create_with_id is_empty valid teq reserved_master has_infix skeleton_of has_prefix lookup
    tenant_response
creates_acme = refl

created_tenant_is_found_example : get_tenant names acme with_acme ≡ ok acme_response
created_tenant_is_found_example =
    created_tenant_is_found names letters (λ r. r) 7 [] acme acme acme empty creates_acme

abbrev tombstone : Tenant
tombstone = record {
  id = acme;
  slug = acme;
  name = acme;
  status = tenant_disabled;
  created_at = 7;
  retired_at = some 9;
}

abbrev retired : Registry
retired = (retire letters contended 9 acme with_acme).1

retires_acme : lookup acme retired.tenants ≡ some (document true tombstone)
unfolding lookup retire teq create_with_id is_empty valid reserved_master has_infix skeleton_of
    has_prefix store_at trim_space
retires_acme = refl

abbrev later : List Operation
later =
    creates calm 11 [] (record tombstone { status = tenant_active; retired_at = none })
    ∷ creates_if_absent (λ r. r) 12 []
        (record tombstone { status = tenant_active; retired_at = none })
    ∷ retires calm 13 acme
    ∷ []

retirement_is_final_example :
    (lookup acme (perform_all letters later retired).tenants ≡ some (document true tombstone))
    × ((tenant : Tenant) → get acme (perform_all letters later retired) ≢ ok (some tenant))
unfolding teq is_retired_tenant
retirement_is_final_example =
    retirement_is_final letters acme later retired true tombstone refl
      ((λ n r e t h k. h), ((λ r e t h k. h), ((λ n r e t h k. h), tt))) retires_acme refl
