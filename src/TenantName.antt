-- ===== src/TenantName.antt =====
-- internal/tenantname/name.go: canonical tenant display names, and the reserved MASTER brand with its
-- bounded edit distance. Texts are lists of runes here. The Unicode normal forms and character
-- classes are a parameter.
pub mod Distance
pub mod Edits
pub mod Shape
pub mod Tests
use Prim.Native.Nat.{min}
use tikti.Base.{
  ltb, leb, ◌==◌, if◌then◌else◌, ltb→lt, lt→ltb, leb→le, ==_iff, Bool-cases, Option-cases, bool_ext,
  &&_true, length, all, keep, length-append, length-keep-le, All, All-append, All-append_left,
  All-append_right, All-reverse, All-keep, All-map, All-of-all, all-of-All, Result, ok, err, ◌>>=◌,
  >>=-eq-ok, Text, codes, teq, tle, tlt, teq_sound, teq_refl, teq_iff, teq_comm, tle_refl,
  tle_total, tle_antisymm, tle_trans, has_prefix, is_empty, ℕ, zero, suc, ◌+◌, ◌-◌, ◌*◌, ◌/◌, ◌%◌,
  ◌^◌, ◌≤◌, ◌<◌, String, ◌≡◌, refl, sym, ap, ◌∙◌, ◌≡⟨◌⟩◌, ◌∎, ◌≢◌, ◌↔◌, ◌⊎◌, inl, inr, Bool, true,
  false, not, ◌&&◌, ◌||◌, Option, none, some, List, [], ◌∷◌, ◌++◌, map, reverse, arith, same_texts,
  same_texts_iff, contains, is_nodup, contains-append, contains-keep, All-contains, All-of_contains,
  subset, contains-subset, insert, sort, IsSorted, IsStrict, contains-insert, contains-sort,
  All-insert, All-sort, length-insert, length-sort, sort-IsSorted, sort-IsStrict, sort_of_IsSorted,
  IsStrict-IsSorted, IsStrict-is_nodup, sort_of_IsStrict, IsStrict-ext, is_nodup-concat,
  contains_congr, IsFresh, IsFresh-nil, IsFresh-head, IsFresh-tail, IsFresh-cons, trim_space,
  trim_space_solid, IsSolid,
}

-- norm.NFKC, norm.NFKD, strings.TrimSpace and the predicates of package unicode, on runes.
pub record Unicode : Type 0 where
  pub nfkc : Text → Text
  pub nfkd : Text → Text
  pub trim : Text → Text
  pub valid_utf8 : Text → Bool
  pub is_control : ℕ → Bool
  pub is_format : ℕ → Bool
  pub is_print : ℕ → Bool
  pub is_mark : ℕ → Bool
  pub is_letter : ℕ → Bool
  pub is_digit : ℕ → Bool
  pub to_lower : ℕ → ℕ

abbrev pub protected_master_skeleton : Text
protected_master_skeleton = codes "codefoundry"

abbrev pub maximum_distance : ℕ
maximum_distance = 3

-- strings.Contains
unfoldable pub has_infix : Text → Text → Bool
has_infix [] t = has_prefix [] t
has_infix (c ∷ s) t = has_prefix (c ∷ s) t || has_infix s t

-- previous[index] = index
unfoldable pub first_row : ℕ → Text → List ℕ
first_row n [] = n ∷ []
first_row n (right ∷ rest) = n ∷ first_row (n + 1) rest

unfoldable pub cost : ℕ → ℕ → ℕ
cost left right = if left == right then 0 else 1

-- The inner loop: `previous` from the present index on, and the entry of `current` at that index.
unfoldable pub next_row : ℕ → List ℕ → ℕ → Text → List ℕ
next_row left (diagonal ∷ above ∷ previous) entry (right ∷ rest) =
    let entry' = min (above + 1) (min (entry + 1) (diagonal + cost left right)) in
    entry ∷ next_row left (above ∷ previous) entry' rest
next_row left _ entry _ = entry ∷ []

-- The outer loop over the candidate's runes.
unfoldable pub rows : ℕ → List ℕ → Text → Text → List ℕ
rows index previous [] protected = previous
rows index previous (left ∷ rest) protected =
    rows (index + 1) (next_row left previous (index + 1) protected) rest protected

unfoldable pub get_or : List ℕ → ℕ → ℕ → ℕ
get_or [] i d = d
get_or (x ∷ xs) zero d = x
get_or (x ∷ xs) (suc i) d = get_or xs i d

unfoldable pub edit_distance : Text → Text → ℕ
unfolding rows get_or
edit_distance candidate protected =
    get_or (rows 0 (first_row 0 protected) candidate protected) (length protected) 0

unfoldable pub protected_shape : Text → Bool
protected_shape candidate =
    if has_infix candidate protected_master_skeleton
    then true
    else if ltb maximum_distance (length candidate - length protected_master_skeleton)
        || ltb maximum_distance (length protected_master_skeleton - length candidate)
    then false
    else leb (edit_distance candidate protected_master_skeleton) maximum_distance

unfoldable pub is_one_of : Text → ℕ → Bool
is_one_of [] c = false
is_one_of (a ∷ s) c = (a == c) || is_one_of s c

unfoldable pub protected_confusable : ℕ → Option ℕ
unfolding is_one_of
protected_confusable c =
    if c == b'0'
    then some b'o'
    else if c == b'3'
    then some b'e'
    else if is_one_of (codes "сϲꓚᴄ") c
    then some b'c'
    else if is_one_of (codes "оοօꓳᴏ") c
    then some b'o'
    else if is_one_of (codes "ԁⅾꓓᴅ") c
    then some b'd'
    else if is_one_of (codes "еεꓰᴇ") c
    then some b'e'
    else if is_one_of (codes "ғϝꓝꜰ") c
    then some b'f'
    else if is_one_of (codes "υսꓴᴜ") c
    then some b'u'
    else if is_one_of (codes "ոпꓠɴ") c
    then some b'n'
    else if is_one_of (codes "гρꓣʀ") c
    then some b'r'
    else if is_one_of (codes "уүꓬʏ") c
    then some b'y'
    else none

unfoldable pub or_same : Option ℕ → ℕ → ℕ
or_same none c = c
or_same (some mapped) c = mapped

module _ (u : Unicode) where
  unfoldable pub normalize : Text → Text
  normalize value = u.trim (u.nfkc value)

  unfoldable pub valid_rune : ℕ → Bool
  valid_rune c = not (u.is_control c || u.is_format c || not (u.is_print c))

  unfoldable pub valid : Text → Bool
  unfolding normalize valid_rune
  valid value =
      let name = normalize value in
      if ltb (length name) 1 || ltb 128 (length name) || not (u.valid_utf8 name)
      then false
      else all valid_rune name

  -- The loop of skeleton over the runes of the NFKD form.
  unfoldable pub skeleton_of : Text → Text
  unfolding protected_confusable or_same
  skeleton_of [] = []
  skeleton_of (c ∷ rest) =
      let lower = u.to_lower c in
      let mapped = or_same (protected_confusable lower) lower in
      let later = skeleton_of rest in
      if u.is_mark c
      then later
      else if u.is_letter mapped || u.is_digit mapped
      then mapped ∷ later
      else later

  unfoldable pub skeleton : Text → Text
  unfolding normalize
  skeleton value = skeleton_of (u.nfkd (normalize value))

  unfoldable pub reserved_master : Text → Bool
  unfolding protected_shape skeleton
  reserved_master value = protected_shape (skeleton value)
