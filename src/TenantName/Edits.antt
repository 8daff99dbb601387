-- ===== src/TenantName/Edits.antt =====
-- Edit scripts between texts, and the distance as the length of a shortest one.
use Prim.Native.Nat.{min}
use mathlib.Core.Path.{subst, subst₂}
use tikti.Base.{
  ◌==◌, ==_iff, Bool-cases, length, Text, ℕ, suc, ◌+◌, ◌≤◌, ◌≡◌, refl, sym, ◌∙◌, ◌⊎◌, inl, inr, [],
  ◌∷◌, arith,
}
use tikti.TenantName.{cost}
use tikti.TenantName.Distance.{lev, onto}

-- `Edits a b n`: n substitutions, deletions and insertions turn `a` into `b`.
pub data Edits : Text → Text → ℕ → Type 0 where
  done : Edits [] [] 0
  same : {a b : Text} {n : ℕ} (x : ℕ) → Edits a b n → Edits (x ∷ a) (x ∷ b) n
  substitute : {a b : Text} {n : ℕ} (x y : ℕ) → Edits a b n → Edits (x ∷ a) (y ∷ b) (suc n)
  delete : {a b : Text} {n : ℕ} (x : ℕ) → Edits a b n → Edits (x ∷ a) b (suc n)
  add : {a b : Text} {n : ℕ} (y : ℕ) → Edits a b n → Edits a (y ∷ b) (suc n)

lev_delete : (x : ℕ) (a b : Text) → lev (x ∷ a) b ≤ suc (lev a b)
unfolding lev
lev_delete x [] [] = omega arith
lev_delete x (z ∷ a) [] = omega arith
lev_delete x a (y ∷ b) = omega arith

lev_add : (y : ℕ) (a b : Text) → lev a (y ∷ b) ≤ suc (lev a b)
unfolding lev
lev_add y [] b = omega arith
lev_add y (x ∷ a) b = omega arith

lev_substitute : (x y : ℕ) (a b : Text) → lev (x ∷ a) (y ∷ b) ≤ suc (lev a b)
unfolding lev cost
lev_substitute x y a b = ground arith

lev_same : (x : ℕ) (a b : Text) → lev (x ∷ a) (x ∷ b) ≤ lev a b
unfolding lev cost
lev_same x a b = ground arith

lev_done : lev [] [] ≤ 0
unfolding lev
lev_done = omega arith

-- No script is shorter than the distance.
pub lev-le-Edits : {a b : Text} {n : ℕ} → Edits a b n → lev a b ≤ n
lev-le-Edits done = lev_done
lev-le-Edits (same {a} {b} x e) = omega (arith, lev_same x a b, lev-le-Edits e)
lev-le-Edits (substitute {a} {b} x y e) = omega (arith, lev_substitute x y a b, lev-le-Edits e)
lev-le-Edits (delete {a} {b} x e) = omega (arith, lev_delete x a b, lev-le-Edits e)
lev-le-Edits (add {a} {b} y e) = omega (arith, lev_add y a b, lev-le-Edits e)

Edits-insert_all : (b : Text) → Edits [] b (length b)
Edits-insert_all [] = done
Edits-insert_all (y ∷ b) = add y (Edits-insert_all b)

Edits-delete_all : (a : Text) → Edits a [] (length a)
Edits-delete_all [] = done
Edits-delete_all (x ∷ a) = delete x (Edits-delete_all a)

Edits_cast : {a b : Text} {n m : ℕ} → n ≡ m → Edits a b n → Edits a b m
Edits_cast {a} {b} e s = subst (λ k. Edits a b k) e s

Edits_step : (x y : ℕ) {a b : Text} {n : ℕ} → Edits a b n → Edits (x ∷ a) (y ∷ b) (n + cost x y)
unfolding cost
Edits_step x y {a} {b} {n} s = elim (Bool-cases (x == y)) [
  | inl e ↦ rw e (
      subst (λ z. Edits (x ∷ a) (z ∷ b) (n + 0)) ((==_iff x y).0 e)
        (Edits_cast (omega arith) (same x s)))
  | inr e ↦ rw e (Edits_cast (omega arith) (substitute x y s))
]

min_cases : (i j k : ℕ) → (min i (min j k) ≡ i) ⊎ ((min i (min j k) ≡ j) ⊎ (min i (min j k) ≡ k))
min_cases i j k = grind arith

-- A script as short as the distance exists.
pub Edits-lev : (a b : Text) → Edits a b (lev a b)
unfolding lev
Edits-lev [] b = Edits-insert_all b
Edits-lev (x ∷ a) [] = Edits-delete_all (x ∷ a)
Edits-lev (x ∷ a) (y ∷ b) =
    pick (Edits-lev a (y ∷ b)) (Edits-lev (x ∷ a) b) (Edits-lev a b)
      (min_cases (lev a (y ∷ b) + 1) (lev (x ∷ a) b + 1) (lev a b + cost x y))
  where
    pick :
        Edits a (y ∷ b) (lev a (y ∷ b))
        → Edits (x ∷ a) b (lev (x ∷ a) b)
        → Edits a b (lev a b)
        → (lev (x ∷ a) (y ∷ b) ≡ lev a (y ∷ b) + 1)
          ⊎ ((lev (x ∷ a) (y ∷ b) ≡ lev (x ∷ a) b + 1) ⊎ (lev (x ∷ a) (y ∷ b) ≡ lev a b + cost x y))
        → Edits (x ∷ a) (y ∷ b) (lev (x ∷ a) (y ∷ b))
    pick d i s (inl e) = Edits_cast (omega arith) (delete x d)
    pick d i s (inr (inl e)) = Edits_cast (omega arith) (add y i)
    pick d i s (inr (inr e)) = Edits_cast (sym e) (Edits_step x y s)

Edits_behind :
    {a b a' b' : Text} {n m : ℕ}
    → Edits a b n
    → Edits a' b' m
    → Edits (onto a a') (onto b b') (n + m)
unfolding onto
Edits_behind done t = Edits_cast (omega arith) t
Edits_behind (same x s) t = Edits_behind s (same x t)
Edits_behind (substitute x y s) t = Edits_cast (omega arith) (Edits_behind s (substitute x y t))
Edits_behind (delete x s) t = Edits_cast (omega arith) (Edits_behind s (delete x t))
Edits_behind (add y s) t = Edits_cast (omega arith) (Edits_behind s (add y t))

onto-onto : (a b : Text) → onto (onto a b) [] ≡ onto b a
unfolding onto
onto-onto [] b = refl
onto-onto (x ∷ a) b = onto-onto a (x ∷ b)

-- A script serves the reversed texts too.
pub Edits-onto : {a b : Text} {n : ℕ} → Edits a b n → Edits (onto a []) (onto b []) n
Edits-onto s = Edits_cast (omega arith) (Edits_behind s done)

pub Edits-of-onto : (a b : Text) {n : ℕ} → Edits (onto a []) (onto b []) n → Edits a b n
Edits-of-onto a b {n} s =
    subst₂ (λ u v. Edits u v n) (onto-onto a [] ∙ onto_nil a) (onto-onto b [] ∙ onto_nil b)
      (Edits-onto s)
  where
    onto_nil : (c : Text) → onto [] c ≡ c
    onto_nil c = unfold onto in refl

pub Edits-length :
    {a b : Text} {n : ℕ} → Edits a b n → (length a ≤ length b + n) × (length b ≤ length a + n)
Edits-length done = omega arith
Edits-length (same x s) = omega (arith, Edits-length s)
Edits-length (substitute x y s) = omega (arith, Edits-length s)
Edits-length (delete x s) = omega (arith, Edits-length s)
Edits-length (add y s) = omega (arith, Edits-length s)
