-- ===== src/Bars/Confluence/Fortress.antt =====
-- The strength of the first wall ahead in the grade of a plan.
use kotsin_nse.Prelude.{◌≡◌, arith}
use kotsin_nse.Num.{Num}
use kotsin_nse.Num.Laws.{◌≼◌, IsOrdered}
use kotsin_nse.Bars.Confluence.{GradePolicy, grade_of}

module _ {W : Type 0} ⦃f : Num W⦄ (laws : IsOrdered W) where
  open laws use {le_trans, lt-eq-not-le}

  -- Under a policy whose bounds for A, B and C fall in this order and do not fall below 1, as the
  -- default ones, the strength of the first wall ahead makes no difference to the grade.
  pub fortress_never_counts :
      (pol : GradePolicy W)
      → f.lit 10 1 ≼ pol.rr_c
      → pol.rr_c ≼ pol.rr_b
      → pol.rr_b ≼ pol.rr_a
      → (rr room x y : W) → grade_of pol rr x room ≡ grade_of pol rr y room
  unfolding grade_of
  fortress_never_counts pol c b a rr room x y = ground (
    arith,
    lt-eq-not-le rr (f.lit 10 1),
    le_trans (f.lit 10 1) pol.rr_c rr c,
    le_trans pol.rr_c pol.rr_b rr b,
    le_trans pol.rr_b pol.rr_a rr a,
  )
