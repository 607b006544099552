-- ===== src/Exec/Paper/Bounds.antt =====
-- What `PaperMatcher.fill` may return, and what it counts.
use kotsin_nse.Prelude.{
  ℕ, ◌+◌, ◌≤◌, ◌<◌, ◌≡◌, Bool, true, false, Option, none, some, List, [], ◌∷◌, ltb, arith,
  if◌then◌else◌,
}
use kotsin_nse.Num.{Num}
use kotsin_nse.Domain.{Time, OrderIntent, Fill}
use kotsin_nse.Exec.Paper.{
  BookSnapshot, Matcher, Filled, filled, stale, is_buy, side_of, fill, fill_from_levels,
  fill_at_ltp, book_fill,
}
use kotsin_nse.Exec.Paper.Walk.{walk_book_lem}

abbrev is_stale : {W : Type 0} → Filled W → Bool
is_stale stale = true
is_stale _ = false

-- What a fill is held to, with the matcher's counters before and after.
pub record IsRight {W : Type 0} (intent : OrderIntent W) (now : Time) (m m' : Matcher W)
    (g : Fill W) : Type 0 where
  pub positive : 0 < g.qty
  pub within : g.qty ≤ intent.qty
  pub stamped : g.ts ≡ now
  pub counted : m'.fills ≡ m.fills + 1
  pub truncated : m'.truncated ≡ (if ltb g.qty intent.qty then m.truncated + 1 else m.truncated)
  pub no_stale : m'.rejected_stale ≡ m.rejected_stale

module _ {W : Type 0} ⦃f : Num W⦄ where
  fill_at_ltp_lem :
      (m : Matcher W) (intent : OrderIntent W) (ltp : Option W) (now : Time) (g : Fill W)
      → 0 < intent.qty
      → (fill_at_ltp m intent ltp now).0 ≡ filled g
      → IsRight intent now m (fill_at_ltp m intent ltp now).1 g
  unfolding fill_at_ltp
  fill_at_ltp_lem m intent ltp now g q e = ground arith

  fill_from_levels_lem :
      (m : Matcher W) (intent : OrderIntent W) (book : BookSnapshot W) (levels : List (W × ℕ))
      (ltp : Option W) (now : Time) (g : Fill W)
      → 0 < intent.qty
      → (fill_from_levels m intent book levels ltp now).0 ≡ filled g
      → IsRight intent now m (fill_from_levels m intent book levels ltp now).1 g
  unfolding fill_from_levels book_fill
  fill_from_levels_lem m intent book [] ltp now g q e = fill_at_ltp_lem m intent ltp now g q e
  fill_from_levels_lem m intent book ((touch, n) ∷ rest) ltp now g q e =
      ground (
        arith,
        walk_book_lem ((touch, n) ∷ rest) intent.qty touch m.ceiling_pct (is_buy intent.side),
      )

  -- A paper fill of a nonempty order takes at least one unit and no more than was asked, at the time
  -- of the call; the matcher counts it once, counts it as truncated exactly if it is short of the
  -- order, and counts no stale book for it.
  pub fill_lem :
      (m : Matcher W) (intent : OrderIntent W) (book : Option (BookSnapshot W)) (ltp : Option W)
      (now : Time) (g : Fill W)
      → 0 < intent.qty
      → (fill m intent book ltp now).0 ≡ filled g
      → IsRight intent now m (fill m intent book ltp now).1 g
  unfolding fill
  fill_lem m intent none ltp now g q e = fill_at_ltp_lem m intent ltp now g q e
  fill_lem m intent (some book) ltp now g q e =
      fill_from_levels_lem m intent book (side_of intent.side book) ltp now g q e
