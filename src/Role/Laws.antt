-- ===== src/Role/Laws.antt =====
-- normalizePermissions is the canonical form of the set of trimmed values.
use tikti.Base.{
  Bool-cases, Text, is_empty, ◌≡◌, refl, ◌∙◌, inl, inr, true, not, ◌&&◌, ◌||◌, List, [], ◌∷◌, ◌++◌,
  arith, is_empty_congr, contains, is_nodup, contains-append, IsStrict, contains-sort,
  sort-IsStrict, is_nodup-concat, contains_congr, trim_space,
}
use tikti.Scope.Audience.{trimmed}
use tikti.Role.{collect_trimmed, normalize_permissions}

collect_trimmed-is_nodup :
    (out values : List Text) → is_nodup out ≡ true → is_nodup (collect_trimmed out values) ≡ true
unfolding collect_trimmed
collect_trimmed-is_nodup out [] n = n
collect_trimmed-is_nodup out (raw ∷ rest) n =
    elim (Bool-cases (is_empty (trim_space raw) || contains out (trim_space raw))) [
      | inl skip ↦ rw skip (collect_trimmed-is_nodup out rest n)
      | inr add ↦ rw add (
          collect_trimmed-is_nodup (out ++ trim_space raw ∷ []) rest
            (is_nodup-concat out (trim_space raw) n (ground arith)))
    ]

contains-collect_trimmed :
    (out values : List Text) (x : Text)
    → contains (collect_trimmed out values) x
      ≡ (contains out x || (contains (trimmed values) x && not (is_empty x)))
unfolding collect_trimmed contains
contains-collect_trimmed out [] x = ground arith
contains-collect_trimmed out (raw ∷ rest) x =
    elim (Bool-cases (is_empty (trim_space raw) || contains out (trim_space raw))) [
      | inl skip ↦ rw skip (
          ground (
            arith,
            contains-collect_trimmed out rest x,
            contains_congr out (trim_space raw) x,
            is_empty_congr (trim_space raw) x,
          ))
      | inr fresh ↦ rw fresh (
          ground (
            arith,
            contains-collect_trimmed (out ++ trim_space raw ∷ []) rest x,
            contains-append out (trim_space raw ∷ []) x,
            is_empty_congr (trim_space raw) x,
          ))
    ]

-- The result is strictly sorted, holds no empty text, and every other text exactly where it is one of
-- the trimmed values.
pub normalize_permissions_canonical :
    (values : List Text)
    → IsStrict (normalize_permissions values)
      × ((x : Text)
          → contains (normalize_permissions values) x
            ≡ (contains (trimmed values) x && not (is_empty x)))
unfolding normalize_permissions contains is_nodup
normalize_permissions_canonical values = (
  sort-IsStrict (collect_trimmed [] values) (collect_trimmed-is_nodup [] values refl),
  λ x. contains-sort (collect_trimmed [] values) x ∙ contains-collect_trimmed [] values x,
)
