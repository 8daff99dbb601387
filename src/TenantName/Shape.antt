-- ===== src/TenantName/Shape.antt =====
-- protectedShape decides closeness to the protected brand.
use tikti.Base.{Bool-cases, Text, ℕ, ◌≤◌, ◌≡◌, ◌↔◌, ◌⊎◌, inl, inr, true, [], arith}
use tikti.TenantName.{protected_master_skeleton, has_infix, edit_distance, protected_shape}
use tikti.TenantName.Distance.{onto, edit_distance-eq-lev}
use tikti.TenantName.Edits.{Edits, Edits-lev, lev-le-Edits, Edits-onto, Edits-of-onto, Edits-length}

-- The dynamic program computes the length of a shortest edit script: one of that length exists, and
-- none is shorter.
pub edit_distance_least :
    (candidate protected : Text)
    → Edits candidate protected (edit_distance candidate protected)
      × ((n : ℕ) → Edits candidate protected n → edit_distance candidate protected ≤ n)
edit_distance_least a b =
    rw (edit_distance-eq-lev a b)
      (Edits-of-onto a b (Edits-lev (onto a []) (onto b [])), λ n s. lev-le-Edits (Edits-onto s))

-- A skeleton is protected exactly when it contains the brand or at most three edits turn it into the
-- brand; the length test before the loop refuses none of these.
pub protected_shape_iff :
    (candidate : Text)
    → (protected_shape candidate ≡ true) ↔ (
        (has_infix candidate protected_master_skeleton ≡ true)
        ⊎ ((n : ℕ) × (n ≤ 3) × Edits candidate protected_master_skeleton n))
unfolding protected_shape
protected_shape_iff candidate =
    let (script, least) = edit_distance_least candidate protected_master_skeleton in
    (
      λ h. elim (Bool-cases (has_infix candidate protected_master_skeleton)) [
        | inl found ↦ inl found
        | inr other ↦
            inr
              (edit_distance candidate protected_master_skeleton, ground (arith, h, other), script)
      ],
      elim [
        | inl found ↦ rw found
        | inr (n, few, s) ↦ ground (arith, few, least n s, Edits-length s)
      ],
    )
