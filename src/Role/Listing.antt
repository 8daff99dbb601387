-- ===== src/Role/Listing.antt =====
-- ListCanonical of internal/services/role_service.go: the order of its answer.
use tikti.Base.{
  Option, List, Bool-cases, All, ok, >>=-eq-ok, Text, teq, tle, ◌≡◌, refl, sym, ap, ◌∙◌, inl, inr,
  true, false, ◌||◌, none, some, [], ◌∷◌, arith, insert, sort, IsStrict, sort-IsSorted,
}
use tikti.Domain.{Role, RoleResp}
use tikti.Scope.{Policy, valid_canonical_permissions}
use tikti.Authority.{has_repeat}
use tikti.Authority.Laws.{no_repeat-IsStrict}
use tikti.Role.{exact_role_definition}
use tikti.Role.Service.{
  RoleRepository, ExactRoleRepository, role_response, insert_response, sort_responses,
  has_duplicate, refuse_duplicates, exact_responses, list_checked, list_from, list_canonical,
}

-- The names of the answers.
abbrev pub names : List RoleResp → List Text
names [] = []
names (r ∷ rs) = r.name ∷ names rs

names-insert_response :
    (r : RoleResp) (rs : List RoleResp) → names (insert_response r rs) ≡ insert r.name (names rs)
unfolding insert_response insert
names-insert_response r [] = refl
names-insert_response r (x ∷ xs) = ground (arith, names-insert_response r xs)

names-sort_responses : (rs : List RoleResp) → names (sort_responses rs) ≡ sort (names rs)
unfolding sort_responses sort
names-sort_responses [] = refl
names-sort_responses (x ∷ xs) =
    names-insert_response x (sort_responses xs) ∙ ap (insert x.name) (names-sort_responses xs)

All-insert_response :
    (P : RoleResp → Type 0) (r : RoleResp) (rs : List RoleResp)
    → P r
    → All P rs
    → All P (insert_response r rs)
unfolding insert_response
All-insert_response P r [] h k = (h, tt)
All-insert_response P r (x ∷ xs) h k = elim (Bool-cases (tle r.name x.name)) [
  | inl e ↦ rw e (h, k)
  | inr e ↦ rw e (k.0, All-insert_response P r xs h k.1)
]

All-sort_responses :
    (P : RoleResp → Type 0) (rs : List RoleResp) → All P rs → All P (sort_responses rs)
unfolding sort_responses
All-sort_responses P [] h = tt
All-sort_responses P (x ∷ xs) h =
    All-insert_response P x (sort_responses xs) h.0 (All-sort_responses P xs h.1)

has_duplicate-has_repeat : (rs : List RoleResp) → has_duplicate rs ≡ has_repeat (names rs)
unfolding has_duplicate has_repeat
has_duplicate-has_repeat [] = refl
has_duplicate-has_repeat (x ∷ []) = refl
has_duplicate-has_repeat (x ∷ y ∷ rest) =
    ap (λ b. teq x.name y.name || b) (has_duplicate-has_repeat (y ∷ rest))

module _ (policy : Policy) (Stored : Type 0) (repo : RoleRepository Stored) where
  exact_responses-All :
      (tenant_id : Text) (roles : List (Option Role)) {out : List RoleResp}
      → exact_responses policy Stored repo tenant_id roles ≡ ok out
      → All (λ (r : RoleResp). valid_canonical_permissions policy r.permissions ≡ true) out
  unfolding exact_responses exact_role_definition role_response
  exact_responses-All tenant_id [] {out} h = let same : [] ≡ out = ground arith in rw (← same) tt
  exact_responses-All tenant_id (none ∷ rest) h = cc
  exact_responses-All tenant_id (some role ∷ rest) {out} h =
      elim (Bool-cases (exact_role_definition policy tenant_id role.name (some role))) [
        | inr e ↦ absurd (ground (arith, h, e))
        | inl e ↦
            let (later, found, last) =
              >>=-eq-ok (exact_responses policy Stored repo tenant_id rest)
                (λ found. ok (role_response role ∷ found)) {last = out} (rw e at h) in
            let same : role_response role ∷ later ≡ out = ground (arith, last) in
            rw (← same) (ground (arith, e), exact_responses-All tenant_id rest found)
      ]

  refuse_duplicates-eq-ok :
      (rs : List RoleResp) {out : List RoleResp}
      → refuse_duplicates rs ≡ ok out
      → (has_duplicate rs ≡ false) × (rs ≡ out)
  unfolding refuse_duplicates
  refuse_duplicates-eq-ok rs h = (ground (arith, h), ground (arith, h))

  list_checked_sound :
      (tenant_id : Text) (roles : List (Option Role)) {out : List RoleResp}
      → list_checked policy Stored repo tenant_id roles ≡ ok out
      → IsStrict (names out)
        × All (λ (r : RoleResp). valid_canonical_permissions policy r.permissions ≡ true) out
  unfolding list_checked
  list_checked_sound tenant_id roles {out} h =
      let (found, exact, last) =
        >>=-eq-ok (exact_responses policy Stored repo tenant_id roles)
          (λ found. refuse_duplicates (sort_responses found)) {last = out} (ground (arith, h)) in
      let (distinct, same) = refuse_duplicates-eq-ok (sort_responses found) last in
      rw (← same) (
        rw (names-sort_responses found) (
            no_repeat-IsStrict (sort (names found)) (sort-IsSorted (names found)) (
              ap has_repeat (sym (names-sort_responses found))
              ∙ (sym (has_duplicate-has_repeat (sort_responses found)) ∙ distinct))),
        All-sort_responses _ found (exact_responses-All tenant_id roles exact),
      )

  -- The answer of ListCanonical is in strictly ascending order of names, so no name stands twice, and
  -- the permissions of every role are canonical.
  pub list_canonical_sorted :
      (exact : Option (ExactRoleRepository Stored)) (tenant_id : Text) (db : Stored)
      {out : List RoleResp}
      → list_canonical policy Stored repo exact tenant_id db ≡ ok out
      → IsStrict (names out)
        × All (λ (r : RoleResp). valid_canonical_permissions policy r.permissions ≡ true) out
  unfolding list_canonical list_from
  list_canonical_sorted none tenant_id db h = absurd (ground (arith, h))
  list_canonical_sorted (some exact) tenant_id db {out} h =
      let (roles, asked, last) =
        >>=-eq-ok (exact.list_exact tenant_id db) (list_checked policy Stored repo tenant_id)
          {last = out} (ground (arith, h)) in
      list_checked_sound tenant_id roles last
