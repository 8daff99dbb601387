-- ===== src/TenantName/Distance.antt =====
-- The rolling rows of protectedShape hold the edit distances of prefixes.
use Prim.Native.Nat.{min}
use native.Mathlib.Numerals.{add-one}
use tikti.Base.{length, Text, ℕ, suc, ◌+◌, ◌≡◌, refl, ap, ◌∙◌, ◌≡⟨◌⟩◌, ◌∎, List, [], ◌∷◌, arith}
use tikti.TenantName.{first_row, cost, next_row, rows, get_or, edit_distance}

-- The reference: the least number of edits between two texts that are read from one end.
unfoldable pub lev : Text → Text → ℕ
lev [] b = length b
lev (x ∷ a) [] = suc (length a)
lev (x ∷ a) (y ∷ b) = min (lev a (y ∷ b) + 1) (min (lev (x ∷ a) b + 1) (lev a b + cost x y))

-- `b` behind the reversed prefix `back`.
unfoldable pub onto : Text → Text → Text
onto [] back = back
onto (y ∷ b) back = onto b (y ∷ back)

-- Distances of the text `a` to the prefixes of a text, each reversed.
row : Text → Text → Text → List ℕ
row a back [] = lev a back ∷ []
row a back (y ∷ b) = lev a back ∷ row a (y ∷ back) b

first_row-eq-row : (back b : Text) → first_row (length back) b ≡ row [] back b
unfolding first_row row lev
first_row-eq-row back [] = refl
first_row-eq-row back (y ∷ b) =
    ap (λ l. length back ∷ l)
      (ap (λ n. first_row n b) (add-one (length back)) ∙ first_row-eq-row (y ∷ back) b)

next_row-row :
    (x : ℕ) (a back b : Text) → next_row x (row a back b) (lev (x ∷ a) back) b ≡ row (x ∷ a) back b
unfolding next_row row lev
next_row-row x a back [] = refl
next_row-row x a back (y ∷ []) = refl
next_row-row x a back (y ∷ z ∷ b) =
    ap (λ l. lev (x ∷ a) back ∷ l) (next_row-row x a (y ∷ back) (z ∷ b))

lev-nil : (a : Text) → lev a [] ≡ length a
unfolding lev
lev-nil [] = refl
lev-nil (x ∷ a) = refl

rows-row :
    (index : ℕ) (a rest b : Text)
    → index ≡ length a
    → rows index (row a [] b) rest b ≡ row (onto rest a) [] b
unfolding rows onto
rows-row index a [] b e = refl
rows-row index a (x ∷ rest) b e =
    rows (index + 1) (next_row x (row a [] b) (index + 1) b) rest b
    ≡⟨ ap (λ n. rows (index + 1) (next_row x (row a [] b) n b) rest b)
        (omega (arith, lev-nil (x ∷ a))) ⟩
      rows (index + 1) (next_row x (row a [] b) (lev (x ∷ a) []) b) rest b
    ≡⟨ ap (λ r. rows (index + 1) r rest b) (next_row-row x a [] b) ⟩
      rows (index + 1) (row (x ∷ a) [] b) rest b
    ≡⟨ rows-row (index + 1) (x ∷ a) rest b (omega arith) ⟩ row (onto rest (x ∷ a)) [] b ∎

get_or-row : (a back b : Text) (d : ℕ) → get_or (row a back b) (length b) d ≡ lev a (onto b back)
unfolding get_or row onto
get_or-row a back [] d = refl
get_or-row a back (y ∷ b) d = get_or-row a (y ∷ back) b d

-- The two-row loop computes the reference distance of the reversed texts.
pub edit_distance-eq-lev : (a b : Text) → edit_distance a b ≡ lev (onto a []) (onto b [])
unfolding edit_distance
edit_distance-eq-lev a b =
    get_or (rows 0 (first_row 0 b) a b) (length b) 0
    ≡⟨ ap (λ r. get_or (rows 0 r a b) (length b) 0) (first_row-eq-row [] b) ⟩
      get_or (rows 0 (row [] [] b) a b) (length b) 0
    ≡⟨ ap (λ r. get_or r (length b) 0) (rows-row 0 [] a b refl) ⟩
      get_or (row (onto a []) [] b) (length b) 0
    ≡⟨ get_or-row (onto a []) [] b 0 ⟩ lev (onto a []) (onto b []) ∎
