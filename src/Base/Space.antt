-- ===== src/Base/Space.antt =====
-- strings.TrimSpace of Go's standard library on UTF-8 bytes: the runes that unicode.IsSpace names
-- are dropped at both ends.
use Prim.Native.Nat.{ℕ, zero, suc, ◌≤◌}
use mathlib.Core.Path.{◌≡◌, refl}
use mathlib.Core.Bool.{Bool, ◌&&◌, ◌||◌}
use mathlib.Core.List.{[], ◌∷◌, reverse, reverse-reverse}
use native.Mathlib.Omega.{arith}
use tikti.Base.Tests.{if◌then◌else◌, leb, ◌==◌}
use tikti.Base.Lists.{All, All-reverse}
use tikti.Base.Texts.{Text}

-- U+0009 to U+000D and U+0020.
unfoldable pub is_space1 : ℕ → Bool
is_space1 a = (leb 9 a && leb a 13) || (a == 32)

-- U+0085 and U+00A0, in two bytes of which the first is 194.
unfoldable pub is_space2 : ℕ → ℕ → Bool
is_space2 a b = (a == 194) && ((b == 133) || (b == 160))

-- U+1680, U+2000 to U+200A, U+2028, U+2029, U+202F, U+205F and U+3000.
unfoldable pub is_space3 : ℕ → ℕ → ℕ → Bool
is_space3 a b c =
    ((a == 225) && (b == 154) && (c == 128))
    || ((a == 226)
        && (b == 128)
        && ((leb 128 c && leb c 138) || (c == 168) || (c == 169) || (c == 175)))
    || ((a == 226) && (b == 129) && (c == 159))
    || ((a == 227) && (b == 128) && (c == 128))

-- The number of bytes of the white-space rune at the head, 0 where there is none.
unfoldable pub space_width : Text → ℕ
unfolding is_space1 is_space2 is_space3
space_width [] = 0
space_width (a ∷ []) = if is_space1 a then 1 else 0
space_width (a ∷ b ∷ []) = if is_space1 a then 1 else if is_space2 a b then 2 else 0
space_width (a ∷ b ∷ c ∷ s) =
    if is_space1 a then 1 else if is_space2 a b then 2 else if is_space3 a b c then 3 else 0

-- The same for a text read from its end.
unfoldable pub space_width_back : Text → ℕ
unfolding is_space1 is_space2 is_space3
space_width_back [] = 0
space_width_back (a ∷ []) = if is_space1 a then 1 else 0
space_width_back (b ∷ a ∷ []) = if is_space1 b then 1 else if is_space2 a b then 2 else 0
space_width_back (c ∷ b ∷ a ∷ s) =
    if is_space1 c then 1 else if is_space2 b c then 2 else if is_space3 a b c then 3 else 0

-- Drops white space at the head; the number is what is left of the rune that is being dropped.
unfoldable pub drop_spaces : (Text → ℕ) → ℕ → Text → Text
drop_spaces width n [] = []
drop_spaces width (suc n) (a ∷ s) = drop_spaces width n s
drop_spaces width zero (a ∷ s) = elim (width (a ∷ s)) [
  | zero ↦ a ∷ s
  | suc n ↦ drop_spaces width n s
]

unfoldable pub trim_space : Text → Text
unfolding drop_spaces space_width space_width_back
trim_space s = reverse (drop_spaces space_width_back 0 (reverse (drop_spaces space_width 0 s)))

-- A byte that begins or ends no white space: printable ASCII.
abbrev pub IsSolid : ℕ → Type 0
IsSolid a = (33 ≤ a) × (a ≤ 126)

drop_spaces_solid : (s : Text) → All IsSolid s → drop_spaces space_width 0 s ≡ s
unfolding drop_spaces space_width
drop_spaces_solid [] h = refl
drop_spaces_solid (a ∷ []) h = ground arith
drop_spaces_solid (a ∷ b ∷ []) h = ground arith
drop_spaces_solid (a ∷ b ∷ c ∷ s) h = ground arith

drop_spaces_back_solid : (s : Text) → All IsSolid s → drop_spaces space_width_back 0 s ≡ s
unfolding drop_spaces space_width_back
drop_spaces_back_solid [] h = refl
drop_spaces_back_solid (a ∷ []) h = ground arith
drop_spaces_back_solid (a ∷ b ∷ []) h = ground arith
drop_spaces_back_solid (a ∷ b ∷ c ∷ s) h = ground arith

pub trim_space_solid : (s : Text) → All IsSolid s → trim_space s ≡ s
unfolding trim_space
trim_space_solid s h =
    rw (drop_spaces_solid s h)
      (rw (drop_spaces_back_solid (reverse s) (All-reverse IsSolid s h)) (reverse-reverse s))
