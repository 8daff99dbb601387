-- ===== src/TenantName/Tests.antt =====
-- The reserved brand at close names, and the theorems at them.
use tikti.Base.{Text, codes, has_prefix, ℕ, ◌≤◌, ◌≡◌, refl, ◌↔◌, ◌⊎◌, true, false}
use tikti.TenantName.{
  protected_master_skeleton, has_infix, edit_distance, protected_shape, rows, first_row, next_row,
  get_or, cost,
}
use tikti.TenantName.Edits.{Edits}
use tikti.TenantName.Shape.{edit_distance_least, protected_shape_iff}

abbrev misspelt : Text
misspelt = codes "codefundri"

close_name_protected : protected_shape misspelt ≡ true
unfolding protected_shape has_infix has_prefix edit_distance rows first_row next_row get_or cost
close_name_protected = refl

other_name_free : protected_shape (codes "coffeeworld") ≡ false
unfolding protected_shape has_infix has_prefix edit_distance rows first_row next_row get_or cost
other_name_free = refl

two_edits : edit_distance misspelt protected_master_skeleton ≡ 2
unfolding edit_distance rows first_row next_row get_or cost
two_edits = refl

edit_distance_least_example :
    Edits misspelt protected_master_skeleton (edit_distance misspelt protected_master_skeleton)
    × ((n : ℕ)
        → Edits misspelt protected_master_skeleton n
        → edit_distance misspelt protected_master_skeleton ≤ n)
edit_distance_least_example = edit_distance_least misspelt protected_master_skeleton

protected_shape_iff_example : (protected_shape misspelt ≡ true) ↔ (
    (has_infix misspelt protected_master_skeleton ≡ true)
    ⊎ ((n : ℕ) × (n ≤ 3) × Edits misspelt protected_master_skeleton n))
protected_shape_iff_example = protected_shape_iff misspelt
