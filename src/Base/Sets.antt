-- ===== src/Base/Sets.antt =====
-- Go's `map[string]struct{}` as a list of texts: only membership is ever asked of it.
use mathlib.Core.Path.{◌≡◌, refl, ap}
use mathlib.Core.Logic.{inl, inr}
use mathlib.Core.Bool.{Bool, true, false, not, ◌&&◌, ◌||◌}
use mathlib.Core.List.{List, [], ◌∷◌, ◌++◌}
use native.Mathlib.Omega.{arith}
use tikti.Base.Tests.{if◌then◌else◌, Bool-cases}
use tikti.Base.Lists.{All, all, keep, All-of-all}
use tikti.Base.Texts.{teq_comm, Text, teq, teq_refl, teq_sound, is_empty}

unfoldable pub contains : List Text → Text → Bool
contains [] x = false
contains (y ∷ ys) x = teq y x || contains ys x

-- No text stands twice.
unfoldable pub is_nodup : List Text → Bool
is_nodup [] = true
is_nodup (x ∷ xs) = not (contains xs x) && is_nodup xs

pub contains-append :
    (xs ys : List Text) (x : Text) → contains (xs ++ ys) x ≡ (contains xs x || contains ys x)
unfolding contains
contains-append [] ys x = refl
contains-append (y ∷ xs) ys x = ground (arith, contains-append xs ys x)

pub contains-keep :
    (p : Text → Bool) (xs : List Text) (x : Text) → contains (keep p xs) x ≡ (contains xs x && p x)
unfolding contains
contains-keep p [] x = refl
contains-keep p (y ∷ xs) x = elim (Bool-cases (teq y x)) [
  | inl e ↦ ground (arith, contains-keep p xs x, ap p (teq_sound y x e))
  | inr e ↦ ground (arith, contains-keep p xs x)
]

-- What holds of all members holds of one that is found.
pub All-contains {ℓ} :
    (P : Text → Type ℓ) (xs : List Text) (x : Text) → All P xs → contains xs x ≡ true → P x
unfolding contains
All-contains P [] x h c = absurd (ground (arith, c))
All-contains P (y ∷ ys) x h c = elim (Bool-cases (teq y x)) [
  | inl e ↦ rw (teq_sound y x e) at (h.0)
  | inr e ↦ All-contains P ys x h.1 (ground arith)
]

pub All-of_contains {ℓ} :
    (P : Text → Type ℓ) (xs : List Text) → ((x : Text) → contains xs x ≡ true → P x) → All P xs
unfolding contains
All-of_contains P [] f = tt
All-of_contains P (y ∷ ys) f =
    (f y (ground (arith, teq_refl y)), All-of_contains P ys (λ x h. f x (ground arith)))

-- subset of user_service.go: empty items are skipped, and empty texts never enter the set.
unfoldable pub subset : List Text → List Text → Bool
subset items allowed =
    let allowed_set = keep (λ a. not (is_empty a)) allowed in
    all (λ item. is_empty item || contains allowed_set item) items

-- An item of a subset that is not empty is allowed.
pub contains-subset :
    (items allowed : List Text) (x : Text)
    → subset items allowed ≡ true
    → contains items x ≡ true
    → is_empty x ≡ false
    → contains allowed x ≡ true
unfolding subset
contains-subset items allowed x h c e =
    let at_x =
      All-contains (λ i. (is_empty i || contains (keep (λ a. not (is_empty a)) allowed) i) ≡ true)
        items x (All-of-all _ items h) c in
    ground (arith, at_x, contains-keep (λ a. not (is_empty a)) allowed x)

-- None of the texts is in the set: what a loop with a `seen` map keeps.
abbrev pub IsFresh : List Text → List Text → Type 0
IsFresh seen xs = All (λ x. contains seen x ≡ false) xs

pub IsFresh-nil : (xs : List Text) → IsFresh [] xs
unfolding contains
IsFresh-nil [] = tt
IsFresh-nil (x ∷ xs) = (refl, IsFresh-nil xs)

pub IsFresh-head :
    (seen : List Text) (x : Text) (xs : List Text) → IsFresh (x ∷ seen) xs → contains xs x ≡ false
unfolding contains
IsFresh-head seen x [] h = refl
IsFresh-head seen x (y ∷ ys) h = ground (arith, h.0, teq_comm x y, IsFresh-head seen x ys h.1)

pub IsFresh-tail :
    (seen : List Text) (x : Text) (xs : List Text) → IsFresh (x ∷ seen) xs → IsFresh seen xs
unfolding contains
IsFresh-tail seen x [] h = tt
IsFresh-tail seen x (y ∷ ys) h = (ground (arith, h.0), IsFresh-tail seen x ys h.1)

pub IsFresh-cons :
    (seen : List Text) (x : Text) (xs : List Text)
    → contains xs x ≡ false
    → IsFresh seen xs
    → IsFresh (x ∷ seen) xs
unfolding contains
IsFresh-cons seen x [] n h = tt
IsFresh-cons seen x (y ∷ ys) n h =
    (ground (arith, h.0, teq_comm x y), IsFresh-cons seen x ys (ground arith) h.1)

pub is_nodup-concat :
    (xs : List Text) (x : Text)
    → is_nodup xs ≡ true
    → contains xs x ≡ false
    → is_nodup (xs ++ x ∷ []) ≡ true
unfolding is_nodup contains
is_nodup-concat [] x n h = refl
is_nodup-concat (y ∷ ys) x n h =
    ground (arith, contains-append ys (x ∷ []) y, teq_comm x y, is_nodup-concat ys x)

pub contains_congr : (xs : List Text) (x y : Text) → teq x y ≡ true → contains xs x ≡ contains xs y
contains_congr xs x y h = ap (contains xs) (teq_sound x y h)

-- set[x] = true
unfoldable pub add : Text → List Text → List Text
add x xs = if contains xs x then xs else x ∷ xs

unfoldable pub add_all : List Text → List Text → List Text
unfolding add
add_all [] xs = xs
add_all (y ∷ ys) xs = add_all ys (add y xs)

pub contains-add :
    (x : Text) (xs : List Text) (z : Text) → contains (add x xs) z ≡ (teq x z || contains xs z)
unfolding add contains
contains-add x xs z = ground (arith, contains_congr xs x z)

pub add-is_nodup : (x : Text) (xs : List Text) → is_nodup xs ≡ true → is_nodup (add x xs) ≡ true
unfolding add is_nodup
add-is_nodup x xs n = ground arith

pub contains-add_all :
    (ys xs : List Text) (z : Text) → contains (add_all ys xs) z ≡ (contains ys z || contains xs z)
unfolding add_all contains
contains-add_all [] xs z = refl
contains-add_all (y ∷ ys) xs z =
    ground (arith, contains-add_all ys (add y xs) z, contains-add y xs z)

pub add_all-is_nodup : (ys xs : List Text) → is_nodup xs ≡ true → is_nodup (add_all ys xs) ≡ true
unfolding add_all
add_all-is_nodup [] xs n = n
add_all-is_nodup (y ∷ ys) xs n = add_all-is_nodup ys (add y xs) (add-is_nodup y xs n)
