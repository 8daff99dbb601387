-- ===== src/Base/Sorting.antt =====
-- `sort.Strings` as insertion sort: on a total order the sorted list is determined by the members,
-- so the algorithm is not observable.
use Prim.Native.Nat.{suc}
use mathlib.Core.Path.{ap₂, ◌≡◌, refl}
use mathlib.Core.Bool.{true, false, ◌||◌}
use mathlib.Core.Logic.{◌⊎◌, inl, inr}
use mathlib.Core.List.{List, [], ◌∷◌}
use native.Mathlib.Omega.{arith}
use tikti.Base.Tests.{if◌then◌else◌, Bool-cases}
use tikti.Base.Lists.{All, All-map, length}
use tikti.Base.Texts.{
  Text, teq, teq_iff, teq_sound, teq_refl, teq_comm, tle, tlt, tle_refl, tle_total, tle_antisymm,
  tle_trans,
}
use tikti.Base.Sets.{contains, is_nodup, All-contains}

unfoldable pub insert : Text → List Text → List Text
insert x [] = x ∷ []
insert x (y ∷ ys) = let rest = insert x ys in if tle x y then x ∷ y ∷ ys else y ∷ rest

unfoldable pub sort : List Text → List Text
unfolding insert
sort [] = []
sort (x ∷ xs) = insert x (sort xs)

abbrev pub IsSorted : List Text → Type 0
IsSorted [] = Unit
IsSorted (x ∷ xs) = All (λ y. tle x y ≡ true) xs × IsSorted xs

-- Sorted, and no text twice.
abbrev pub IsStrict : List Text → Type 0
IsStrict [] = Unit
IsStrict (x ∷ xs) = All (λ y. tlt x y ≡ true) xs × IsStrict xs

pub contains-insert :
    (y : Text) (xs : List Text) (x : Text) → contains (insert y xs) x ≡ (teq y x || contains xs x)
unfolding insert contains
contains-insert y [] x = refl
contains-insert y (z ∷ zs) x = ground (arith, contains-insert y zs x)

pub contains-sort : (xs : List Text) (x : Text) → contains (sort xs) x ≡ contains xs x
unfolding sort contains
contains-sort [] x = refl
contains-sort (y ∷ ys) x = ground (arith, contains-insert y (sort ys) x, contains-sort ys x)

pub All-insert {ℓ} :
    (P : Text → Type ℓ) (y : Text) (xs : List Text) → P y → All P xs → All P (insert y xs)
unfolding insert
All-insert P y [] h k = (h, tt)
All-insert P y (z ∷ zs) h k = elim (Bool-cases (tle y z)) [
  | inl e ↦ rw e (h, k)
  | inr e ↦ rw e (k.0, All-insert P y zs h k.1)
]

pub All-sort {ℓ} : (P : Text → Type ℓ) (xs : List Text) → All P xs → All P (sort xs)
unfolding sort
All-sort P [] h = tt
All-sort P (x ∷ xs) h = All-insert P x (sort xs) h.0 (All-sort P xs h.1)

pub length-insert : (y : Text) (xs : List Text) → length (insert y xs) ≡ suc (length xs)
unfolding insert
length-insert y [] = refl
length-insert y (z ∷ zs) = ground (arith, length-insert y zs)

pub length-sort : (xs : List Text) → length (sort xs) ≡ length xs
unfolding sort
length-sort [] = refl
length-sort (x ∷ xs) = omega (arith, length-insert x (sort xs), length-sort xs)

insert-IsSorted : (y : Text) (xs : List Text) → IsSorted xs → IsSorted (insert y xs)
unfolding insert
insert-IsSorted y [] h = (tt, tt)
insert-IsSorted y (z ∷ zs) h = elim (Bool-cases (tle y z)) [
  | inl e ↦ rw e ((e, All-map _ _ (λ w k. tle_trans y z w e k) zs h.0), h)
  | inr e ↦
      rw e (All-insert (λ w. tle z w ≡ true) y zs (tle_total y z e) h.0, insert-IsSorted y zs h.1)
]

pub sort-IsSorted : (xs : List Text) → IsSorted (sort xs)
unfolding sort
sort-IsSorted [] = tt
sort-IsSorted (x ∷ xs) = insert-IsSorted x (sort xs) (sort-IsSorted xs)

insert-IsStrict :
    (y : Text) (xs : List Text) → contains xs y ≡ false → IsStrict xs → IsStrict (insert y xs)
unfolding insert contains
insert-IsStrict y [] n h = (tt, tt)
insert-IsStrict y (z ∷ zs) n h = elim (Bool-cases (tle y z)) [
  | inl e ↦
      let y_below : tlt y z ≡ true = ground (arith, tle_antisymm y z e, teq_iff z y) in
      rw e ((y_below, All-map _ _ (λ w k. tlt_trans y z w y_below k) zs h.0), h)
  | inr e ↦ rw e (
    All-insert (λ w. tlt z w ≡ true) y zs (ground arith) h.0,
    insert-IsStrict y zs (ground arith) h.1,
  )
]
  where
    tlt_trans : (a b c : Text) → tlt a b ≡ true → tlt b c ≡ true → tlt a c ≡ true
    tlt_trans a b c h k =
        ground
          (arith, tle_total b a, tle_total c b, tle_trans a b c, tle_trans c a b, tle_antisymm b c)

pub sort-IsStrict : (xs : List Text) → is_nodup xs ≡ true → IsStrict (sort xs)
unfolding sort is_nodup
sort-IsStrict [] n = tt
sort-IsStrict (x ∷ xs) n =
    insert-IsStrict x (sort xs) (ground (arith, contains-sort xs x))
      (sort-IsStrict xs (ground arith))

insert-head : (y : Text) (xs : List Text) → All (λ w. tle y w ≡ true) xs → insert y xs ≡ y ∷ xs
unfolding insert
insert-head y [] h = refl
insert-head y (z ∷ zs) h = rw (h.0)

pub sort_of_IsSorted : (xs : List Text) → IsSorted xs → sort xs ≡ xs
unfolding sort
sort_of_IsSorted [] h = refl
sort_of_IsSorted (x ∷ xs) h = rw (sort_of_IsSorted xs h.1) (insert-head x xs h.0)

pub IsStrict-IsSorted : (xs : List Text) → IsStrict xs → IsSorted xs
IsStrict-IsSorted [] h = tt
IsStrict-IsSorted (x ∷ xs) h =
    (All-map _ _ (λ y k. tle_total y x (ground arith)) xs h.0, IsStrict-IsSorted xs h.1)

pub IsStrict-is_nodup : (xs : List Text) → IsStrict xs → is_nodup xs ≡ true
unfolding is_nodup
IsStrict-is_nodup [] h = refl
IsStrict-is_nodup (x ∷ xs) h = elim (Bool-cases (contains xs x)) [
  | inl c ↦ absurd (ground (arith, All-contains (λ y. tlt x y ≡ true) xs x h.0 c, tle_refl x))
  | inr c ↦ rw c (IsStrict-is_nodup xs h.1)
]

pub sort_of_IsStrict : (xs : List Text) → IsStrict xs → sort xs ≡ xs
sort_of_IsStrict xs h = sort_of_IsSorted xs (IsStrict-IsSorted xs h)

not_contains_below :
    (x : Text) (xs : List Text) → All (λ y. tlt x y ≡ true) xs → contains xs x ≡ false
not_contains_below x xs h = elim (Bool-cases (contains xs x)) [
  | inl c ↦ absurd (ground (arith, All-contains (λ y. tlt x y ≡ true) xs x h c, tle_refl x))
  | inr c ↦ c
]

-- Strictly sorted lists with the same members are one list.
pub IsStrict-ext :
    (xs ys : List Text)
    → IsStrict xs
    → IsStrict ys
    → ((z : Text) → contains xs z ≡ contains ys z)
    → xs ≡ ys
unfolding contains
IsStrict-ext [] [] h k e = refl
IsStrict-ext [] (y ∷ ys) h k e = absurd (ground (arith, e y, teq_refl y))
IsStrict-ext (x ∷ xs) [] h k e = absurd (ground (arith, e x, teq_refl x))
IsStrict-ext (x ∷ xs) (y ∷ ys) h k e =
    let same : x ≡ y = heads (Bool-cases (teq x y)) in
    ap₂ ◌∷◌ same (IsStrict-ext xs ys h.1 k.1 (tails same))
  where
    heads : (teq x y ≡ true) ⊎ (teq x y ≡ false) → x ≡ y
    heads (inl s) = teq_sound x y s
    heads (inr n) = absurd (
        ground (
          arith,
          e x,
          e y,
          teq_refl x,
          teq_refl y,
          teq_comm x y,
          All-contains (λ w. tlt x w ≡ true) xs y h.0,
          All-contains (λ w. tlt y w ≡ true) ys x k.0,
          tle_total x y,
        ))

    tails : x ≡ y → (z : Text) → contains xs z ≡ contains ys z
    tails s z = ground (
      arith,
      e z,
      teq_iff x z,
      teq_iff y z,
      not_contains_below x xs h.0,
      not_contains_below y ys k.0,
    )
