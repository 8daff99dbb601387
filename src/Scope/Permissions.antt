-- ===== src/Scope/Permissions.antt =====
-- CanonicalPermissions of internal/scopepolicy/policy.go decides a predicate on the list, and its
-- results are the canonical form of their set.
use tikti.Base.{
  List, Option-cases, length, All, Text, ◌≤◌, ◌≡◌, refl, sym, ◌↔◌, inl, inr, true, some, [], ◌∷◌,
  arith, same_texts_iff, contains, is_nodup, sort, IsStrict, contains-sort, All-sort, length-sort,
  sort-IsStrict, IsStrict-is_nodup, sort_of_IsStrict, IsFresh, IsFresh-nil, IsFresh-head,
  IsFresh-tail, IsFresh-cons,
}
use tikti.Scope.{
  Policy, valid_permission, is_reserved, reserved_assignable, check_permissions,
  canonical_permissions, valid_canonical_permissions,
}

-- A permission that a role definition may hold: well formed and, where reserved, assignable.
abbrev pub IsGrantable : Policy → Text → Type 0
IsGrantable policy value =
    (valid_permission value ≡ true)
    × (is_reserved value ≡ true → reserved_assignable policy value ≡ true)

check_permissions_sound :
    (policy : Policy) (seen values : List Text)
    → check_permissions policy seen values ≡ true
    → (is_nodup values ≡ true) × IsFresh seen values × All (IsGrantable policy) values
unfolding check_permissions is_nodup
check_permissions_sound policy seen [] h = (refl, tt, tt)
check_permissions_sound policy seen (v ∷ vs) h =
    let later : check_permissions policy (v ∷ seen) vs ≡ true = ground arith in
    let (distinct, fresh, grantable) = check_permissions_sound policy (v ∷ seen) vs later in
    (
      ground (arith, distinct, IsFresh-head seen v vs fresh),
      (ground arith, IsFresh-tail seen v vs fresh),
      ((ground arith, λ r. ground arith), grantable),
    )

check_permissions_complete :
    (policy : Policy) (seen values : List Text)
    → is_nodup values ≡ true
    → IsFresh seen values
    → All (IsGrantable policy) values
    → check_permissions policy seen values ≡ true
unfolding check_permissions is_nodup
check_permissions_complete policy seen [] n f g = refl
check_permissions_complete policy seen (v ∷ vs) n f g =
    let later =
      check_permissions_complete policy (v ∷ seen) vs (ground arith)
        (IsFresh-cons seen v vs (ground arith) f.1) g.1 in
    ground (arith, later, f.0, g.0.0, g.0.1)

-- A list is accepted with a result exactly when it has 1 to 500 members, none of them twice, each
-- well formed and, where its prefix reserves it, assignable by the compiled manifest, and the result
-- is the list sorted; so every other list is refused.
pub canonical_permissions_iff :
    (policy : Policy) (values result : List Text)
    → (canonical_permissions policy values ≡ some result) ↔ (
        (result ≡ sort values)
        × (1 ≤ length values)
        × (length values ≤ 500)
        × (is_nodup values ≡ true)
        × All (IsGrantable policy) values)
unfolding canonical_permissions
canonical_permissions_iff policy values result = (
  λ h.
      let checked : check_permissions policy [] values ≡ true = ground arith in
      let (distinct, fresh, grantable) = check_permissions_sound policy [] values checked in
      (ground arith, ground arith, ground arith, distinct, grantable),
  λ (sorted, few, many, distinct, grantable).
      let checked =
        check_permissions_complete policy [] values distinct (IsFresh-nil values) grantable in
      ground arith,
)

-- What is returned is strictly sorted, has the members of the input, and is accepted again
-- unchanged.
pub canonical_permissions_canonical :
    (policy : Policy) (values : List Text) {result : List Text}
    → canonical_permissions policy values ≡ some result
    → IsStrict result
      × ((x : Text) → contains result x ≡ contains values x)
      × (canonical_permissions policy result ≡ some result)
canonical_permissions_canonical policy values {result} h =
    let (same, few, many, distinct, grantable) =
      (canonical_permissions_iff policy values result).0 h in
    let strict = sort-IsStrict values distinct in
    rw same (
      strict,
      contains-sort values,
      (canonical_permissions_iff policy (sort values) (sort values)).1 (
        sym (sort_of_IsStrict (sort values) strict),
        omega (arith, length-sort values),
        omega (arith, length-sort values),
        IsStrict-is_nodup (sort values) strict,
        All-sort (IsGrantable policy) values grantable,
      ),
    )

-- ValidCanonicalPermissions accepts exactly the lists that CanonicalPermissions leaves unchanged:
-- 1 to 500 strictly sorted grantable permissions.
pub valid_canonical_permissions_iff :
    (policy : Policy) (values : List Text)
    → (valid_canonical_permissions policy values ≡ true) ↔ (
        (1 ≤ length values)
        × (length values ≤ 500)
        × IsStrict values
        × All (IsGrantable policy) values)
unfolding valid_canonical_permissions
valid_canonical_permissions_iff policy values = (
  λ h. elim (Option-cases (canonical_permissions policy values)) [
    | inl e ↦ absurd (ground (arith, e, h))
    | inr (result, e) ↦
        let same : result ≡ values = (same_texts_iff result values).0 (ground (arith, e, h)) in
        let (strict, members, again) = canonical_permissions_canonical policy values e in
        let (sorted, few, many, distinct, grantable) =
          (canonical_permissions_iff policy values result).0 e in
        (few, many, rw same at strict, grantable)
  ],
  λ (few, many, strict, grantable).
      let accepted =
        (canonical_permissions_iff policy values (sort values)).1
          (refl, few, many, IsStrict-is_nodup values strict, grantable) in
      rw accepted ((same_texts_iff (sort values) values).1 (sort_of_IsStrict values strict)),
)
