-- ===== src/Scope/Audience.antt =====
-- CanonicalAudienceScopes of internal/scopepolicy/policy.go: what it accepts, the canonical form of
-- its results, and the split of an audience's scopes into role-assignable and home-authority ones.
use mathlib.Core.Path.{ap₂}
use tikti.Base.{
  ℕ, List, ltb, leb, ◌==◌, if◌then◌else◌, leb→le, ==_iff, Bool-cases, Option-cases, &&_true, length,
  all, length-append, All, All-append, All-map, All-of-all, ok, err, Text, teq_sound, teq_refl, ◌+◌,
  ◌≤◌, ◌≡◌, refl, ap, ◌∙◌, ◌↔◌, inl, inr, Bool, true, false, not, ◌&&◌, ◌||◌, some, [], ◌∷◌, ◌++◌,
  arith, same_texts_iff, contains, is_nodup, contains-append, All-contains, sort, IsStrict,
  contains-sort, All-sort, length-sort, sort-IsStrict, IsStrict-ext, is_nodup-concat,
  contains_congr, trim_space, trim_space_solid, IsSolid,
}
use tikti.Scope.{
  ScopeEntry, Policy, alphabet, contains_byte, valid_permission, is_reserved, find_scope,
  audience_known, collect_scopes, canonical_audience_scopes, valid_canonical_audience_scopes,
  reserved_assignable, tenant_role_assignable, requires_home_authority,
}

-- A scope that may stand in an audience: well formed and, where reserved, in the manifest and not
-- dormant.
abbrev pub IsAudienceScope : List ScopeEntry → Text → Type 0
IsAudienceScope entries value =
    (valid_permission value ≡ true)
    × (is_reserved value ≡ true → audience_known (find_scope entries value) ≡ true)

pub contains_byte-all :
    (p : ℕ → Bool) (s : Text) (c : ℕ) → all p s ≡ true → contains_byte s c ≡ true → p c ≡ true
unfolding contains_byte
contains_byte-all p [] c h k = cc
contains_byte-all p (a ∷ s) c h k = elim (Bool-cases (a == c)) [
  | inl e ↦ rw ((==_iff a c).0 e) at (&&_true (p a) (all p s) h).0
  | inr e ↦ contains_byte-all p s c (&&_true (p a) (all p s) h).1 (ground arith)
]

alphabet_solid : all (λ a. leb 33 a && leb a 126) alphabet ≡ true
alphabet_solid = refl

IsSolid-of_alphabet : (c : ℕ) → contains_byte alphabet c ≡ true → IsSolid c
IsSolid-of_alphabet c h =
    let in_range = contains_byte-all (λ a. leb 33 a && leb a 126) alphabet c alphabet_solid h in
    (leb→le 33 c (&&_true _ _ in_range).0, leb→le c 126 (&&_true _ _ in_range).1)

-- Trimming leaves a well-formed permission as it is.
pub trim_space-valid_permission :
    (value : Text) → valid_permission value ≡ true → trim_space value ≡ value
unfolding valid_permission
trim_space-valid_permission value h = trim_space_solid value (
    All-map _ IsSolid IsSolid-of_alphabet value
      (All-of-all (contains_byte alphabet) value (second h)))
  where
    second :
        (if ltb (length value) 1 || ltb 128 (length value)
            then false
            else all (contains_byte alphabet) value)
          ≡ true
        → all (contains_byte alphabet) value ≡ true
    second e = ground (arith, e)

-- The members of the texts after trimming.
abbrev pub trimmed : List Text → List Text
trimmed [] = []
trimmed (value ∷ rest) = trim_space value ∷ trimmed rest

record Collected (entries : List ScopeEntry) (start values result : List Text) : Type 0 where
  distinct : is_nodup result ≡ true
  members : (x : Text) → contains result x ≡ (contains start x || contains (trimmed values) x)
  scopes : All (IsAudienceScope entries) start → All (IsAudienceScope entries) result
  inputs : All (IsAudienceScope entries) (trimmed values)
  size : length result ≤ length start + length values

collect_scopes_sound :
    (entries : List ScopeEntry) (start values result : List Text)
    → is_nodup start ≡ true
    → collect_scopes entries start values ≡ some result
    → Collected entries start values result
unfolding collect_scopes contains
collect_scopes_sound entries start [] result n h =
    let same : start ≡ result = ground arith in
    rw (← same) (record {
      distinct = n;
      members = λ x. ground arith;
      scopes = λ s. s;
      inputs = tt;
      size = omega arith;
    })
collect_scopes_sound entries start (raw ∷ rest) result n h =
    let fits : IsAudienceScope entries (trim_space raw) = (ground arith, λ r. ground arith) in
    elim (Bool-cases (contains start (trim_space raw))) [
      | inl old ↦
          let later = collect_scopes_sound entries start rest result n (ground arith) in
          record {
            distinct = later.distinct;
            members = λ x. ground (
              arith,
              later.members x,
              teq_sound (trim_space raw) x,
              contains_congr start (trim_space raw) x,
            );
            scopes = later.scopes;
            inputs = (fits, later.inputs);
            size = omega (arith, later.size);
          }
      | inr new ↦
          let later =
            collect_scopes_sound entries (start ++ trim_space raw ∷ []) rest result
              (is_nodup-concat start (trim_space raw) n new) (ground arith) in
          record {
            distinct = later.distinct;
            members =
                λ x. ground (arith, later.members x, contains-append start (trim_space raw ∷ []) x);
            scopes = λ s. later.scopes (All-append _ start (trim_space raw ∷ []) s (fits, tt));
            inputs = (fits, later.inputs);
            size = omega (arith, later.size, length-append start (trim_space raw ∷ []));
          }
    ]

-- Where every trimmed value fits, the loop returns a list.
collect_scopes_total :
    (entries : List ScopeEntry) (start values : List Text)
    → All (IsAudienceScope entries) (trimmed values)
    → (result : List Text) × (collect_scopes entries start values ≡ some result)
unfolding collect_scopes
collect_scopes_total entries start [] h = (start, refl)
collect_scopes_total entries start (raw ∷ rest) h =
    elim (Bool-cases (contains start (trim_space raw))) [
      | inl old ↦
          let (result, e) = collect_scopes_total entries start rest h.1 in
          (result, ground (arith, e, h.0.0, h.0.1))
      | inr new ↦
          let (result, e) = collect_scopes_total entries (start ++ trim_space raw ∷ []) rest h.1 in
          (result, ground (arith, e, h.0.0, h.0.1))
    ]

-- The loop from the empty result.
collected :
    (entries : List ScopeEntry) (values found : List Text)
    → collect_scopes entries [] values ≡ some found
    → Collected entries [] values found
unfolding is_nodup
collected entries values found e = collect_scopes_sound entries [] values found refl e

collected_members :
    (entries : List ScopeEntry) (values found : List Text)
    → collect_scopes entries [] values ≡ some found
    → (x : Text) → contains found x ≡ contains (trimmed values) x
unfolding contains
collected_members entries values found e x = (collected entries values found e).members x

found_pos :
    (values found : List Text)
    → 1 ≤ length values
    → ((x : Text) → contains found x ≡ contains (trimmed values) x)
    → 1 ≤ length found
unfolding contains
found_pos [] found few m = absurd (omega arith)
found_pos (v ∷ vs) [] few m = absurd (ground (arith, m (trim_space v), teq_refl (trim_space v)))
found_pos (v ∷ vs) (f ∷ fs) few m = omega arith

-- A result of CanonicalAudienceScopes is strictly sorted, not empty and at most as long as the input,
-- its members are the trimmed values, and each may stand in an audience.
pub canonical_audience_scopes_canonical :
    (entries : List ScopeEntry) (values : List Text) {result : List Text}
    → canonical_audience_scopes (ok entries) values ≡ some result
    → IsStrict result
      × ((x : Text) → contains result x ≡ contains (trimmed values) x)
      × All (IsAudienceScope entries) result
      × (1 ≤ length result)
      × (length result ≤ length values)
unfolding canonical_audience_scopes
canonical_audience_scopes_canonical entries values {result} h =
    elim (Option-cases (collect_scopes entries [] values)) [
      | inl e ↦ absurd (ground (arith, e, h))
      | inr (found, e) ↦
          let c = collected entries values found e in
          let same : result ≡ sort found = ground (arith, e, h) in
          rw same (
            sort-IsStrict found c.distinct,
            λ x. contains-sort found x ∙ collected_members entries values found e x,
            All-sort (IsAudienceScope entries) found (c.scopes tt),
            ground (arith, e, h),
            omega (arith, length-sort found, c.size),
          )
    ]

pub trimmed_valid :
    (values : List Text) → All (λ v. valid_permission v ≡ true) values → trimmed values ≡ values
trimmed_valid [] h = refl
trimmed_valid (v ∷ vs) h = ap₂ ◌∷◌ (trim_space-valid_permission v h.0) (trimmed_valid vs h.1)

-- A list is accepted exactly when it has 1 to 500 members and each of them, trimmed, may stand in an
-- audience; repeated values are no reason to refuse.
pub canonical_audience_scopes_iff :
    (entries : List ScopeEntry) (values : List Text)
    → ((result : List Text) × (canonical_audience_scopes (ok entries) values ≡ some result)) ↔ (
        (1 ≤ length values)
        × (length values ≤ 500)
        × All (IsAudienceScope entries) (trimmed values))
unfolding canonical_audience_scopes
canonical_audience_scopes_iff entries values = (
  λ (result, h). elim (Option-cases (collect_scopes entries [] values)) [
    | inl e ↦ absurd (ground (arith, e, h))
    | inr (found, e) ↦
        let c = collected entries values found e in (ground (arith, h), ground (arith, h), c.inputs)
  ],
  λ (few, many, fits).
      let (found, e) = collect_scopes_total entries [] values fits in
      let c = collected entries values found e in
      (
        sort found,
        ground (
          arith,
          e,
          length-sort found,
          found_pos values found few (collected_members entries values found e),
        ),
      ),
)

-- Canonical scopes are accepted again, unchanged: ValidCanonicalAudienceScopes holds of every result.
pub valid_canonical_audience_scopes-canonical_audience_scopes :
    (policy : Policy) (values : List Text) {result : List Text}
    → canonical_audience_scopes policy values ≡ some result
    → valid_canonical_audience_scopes policy result ≡ true
unfolding canonical_audience_scopes valid_canonical_audience_scopes
valid_canonical_audience_scopes-canonical_audience_scopes (err e) values h =
    absurd (ground (arith, h))
valid_canonical_audience_scopes-canonical_audience_scopes (ok entries) values {result} h =
    let (strict, members, fits, few, many) = canonical_audience_scopes_canonical entries values h in
    let plain = trimmed_valid result (All-map _ _ (λ v k. k.0) result fits) in
    let (few_values, many_values, all_fit) =
      (canonical_audience_scopes_iff entries values).0 (result, h) in
    let (again, accepted) =
      (canonical_audience_scopes_iff entries result).1 (few, omega arith, rw plain fits) in
    let (strict', members', fits', few', many') =
      canonical_audience_scopes_canonical entries result accepted in
    let same : again ≡ result =
      IsStrict-ext again result strict' strict (λ x. members' x ∙ ap (λ l. contains l x) plain) in
    unfold valid_canonical_audience_scopes in rw accepted ((same_texts_iff again result).1 same)

-- Of every scope of a canonical audience exactly one of the two tests of the manifest holds: that
-- tenant roles may carry it, or that it requires home authority.
pub canonical_scope_authority :
    (policy : Policy) (values : List Text) {result : List Text} (value : Text)
    → canonical_audience_scopes policy values ≡ some result
    → contains result value ≡ true
    → requires_home_authority policy value ≡ not (tenant_role_assignable policy value)
unfolding canonical_audience_scopes requires_home_authority tenant_role_assignable
    reserved_assignable audience_known
canonical_scope_authority (err e) values value h c = absurd (ground (arith, h))
canonical_scope_authority (ok entries) values {result} value h c =
    let (strict, members, fits, few, many) = canonical_audience_scopes_canonical entries values h in
    let fit = All-contains (IsAudienceScope entries) result value fits c in
    elim (Option-cases (find_scope entries value)) [
      | inl e ↦ ground (arith, e, fit.0, fit.1)
      | inr (entry, e) ↦ ground (arith, e, fit.0, fit.1)
    ]
