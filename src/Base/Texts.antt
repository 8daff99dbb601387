-- ===== src/Base/Texts.antt =====
-- Go's strings: byte sequences, with their equality and the order of `sort.Strings`.
use Prim.Native.Nat.{ℕ}
use Prim.Native.Char.{code}
use Prim.Native.String.{String}
use mathlib.Core.Path.{ap, ◌≡◌, refl}
use mathlib.Core.Logic.{◌↔◌}
use mathlib.Core.Bool.{Bool, true, false, not, ◌&&◌, ◌||◌}
use mathlib.Core.List.{List, [], ◌∷◌}
use native.Mathlib.Omega.{arith}
use tikti.Base.Tests.{ltb, ◌==◌}

abbrev pub Text : Type 0
Text = List ℕ

-- The code points of a literal: its bytes, where it is ASCII.
abbrev pub codes : String → Text
codes String.[] = []
codes (String.◌∷◌ c s) = code c ∷ codes s

unfoldable pub teq : Text → Text → Bool
teq [] [] = true
teq (x ∷ xs) (y ∷ ys) = (x == y) && teq xs ys
teq _ _ = false

-- a <= b, byte by byte.
unfoldable pub tle : Text → Text → Bool
tle [] b = true
tle (x ∷ xs) [] = false
tle (x ∷ xs) (y ∷ ys) = ltb x y || ((x == y) && tle xs ys)

abbrev pub tlt : Text → Text → Bool
tlt a b = not (tle b a)

pub teq_sound : (a b : Text) → teq a b ≡ true → a ≡ b
unfolding teq
teq_sound [] [] h = refl
teq_sound [] (y ∷ ys) h = cc
teq_sound (x ∷ xs) [] h = cc
teq_sound (x ∷ xs) (y ∷ ys) h = ground (arith, teq_sound xs ys)

pub teq_refl : (a : Text) → teq a a ≡ true
unfolding teq
teq_refl [] = refl
teq_refl (x ∷ xs) = ground (arith, teq_refl xs)

pub teq_iff : (a b : Text) → (teq a b ≡ true) ↔ (a ≡ b)
teq_iff a b = (teq_sound a b, λ e. rw (← e) (teq_refl a))

pub teq_comm : (a b : Text) → teq a b ≡ teq b a
teq_comm a b = ground (arith, teq_iff a b, teq_iff b a)

pub tle_refl : (a : Text) → tle a a ≡ true
unfolding tle
tle_refl [] = refl
tle_refl (x ∷ xs) = ground (arith, tle_refl xs)

pub tle_total : (a b : Text) → tle a b ≡ false → tle b a ≡ true
unfolding tle
tle_total [] b h = cc
tle_total (x ∷ xs) [] h = refl
tle_total (x ∷ xs) (y ∷ ys) h = ground (arith, tle_total xs ys)

pub tle_antisymm : (a b : Text) → tle a b ≡ true → tle b a ≡ true → a ≡ b
unfolding tle
tle_antisymm [] [] h k = refl
tle_antisymm [] (y ∷ ys) h k = cc
tle_antisymm (x ∷ xs) [] h k = cc
tle_antisymm (x ∷ xs) (y ∷ ys) h k = ground (arith, tle_antisymm xs ys)

pub tle_trans : (a b c : Text) → tle a b ≡ true → tle b c ≡ true → tle a c ≡ true
unfolding tle
tle_trans [] b c h k = refl
tle_trans (x ∷ xs) [] c h k = cc
tle_trans (x ∷ xs) (y ∷ ys) [] h k = cc
tle_trans (x ∷ xs) (y ∷ ys) (z ∷ zs) h k = ground (arith, tle_trans xs ys zs)

-- strings.HasPrefix(s, prefix)
unfoldable pub has_prefix : Text → Text → Bool
has_prefix s [] = true
has_prefix [] (p ∷ ps) = false
has_prefix (c ∷ s) (p ∷ ps) = (c == p) && has_prefix s ps

unfoldable pub is_empty : Text → Bool
is_empty [] = true
is_empty (c ∷ s) = false

-- slices.Equal on strings
unfoldable pub same_texts : List Text → List Text → Bool
same_texts [] [] = true
same_texts (x ∷ xs) (y ∷ ys) = teq x y && same_texts xs ys
same_texts _ _ = false

same_texts_sound : (xs ys : List Text) → same_texts xs ys ≡ true → xs ≡ ys
unfolding same_texts
same_texts_sound [] [] h = refl
same_texts_sound [] (y ∷ ys) h = cc
same_texts_sound (x ∷ xs) [] h = cc
same_texts_sound (x ∷ xs) (y ∷ ys) h = ground (arith, teq_sound x y, same_texts_sound xs ys)

same_texts_refl : (xs : List Text) → same_texts xs xs ≡ true
unfolding same_texts
same_texts_refl [] = refl
same_texts_refl (x ∷ xs) = ground (arith, teq_refl x, same_texts_refl xs)

pub same_texts_iff : (xs ys : List Text) → (same_texts xs ys ≡ true) ↔ (xs ≡ ys)
same_texts_iff xs ys = (same_texts_sound xs ys, λ e. rw (← e) (same_texts_refl xs))

pub is_empty_congr : (a b : Text) → teq a b ≡ true → is_empty a ≡ is_empty b
is_empty_congr a b h = ap is_empty (teq_sound a b h)
