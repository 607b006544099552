-- ===== src/Bars/Periods/Previous.antt =====
-- Which period `previous_complete` of backend/kotsin_nse/bars/periods.py answers.
use kotsin_nse.Prelude.{ℕ, ◌≤◌, ◌≡◌, refl, true, false, Option, none, some, List, All, select}
use kotsin_nse.Prelude.Sort.{IsIn, All-IsIn, All-at, All-select, select-All}
use kotsin_nse.Prelude.Sort.Order.{last-sort_by, last-sort_by-none, select-none}
use kotsin_nse.Num.{Num}
use kotsin_nse.Bars.Periods.{KeyOf, PeriodOhlc, is_done, previous_complete}

module _ {W : Type 0} ⦃f : Num W⦄ (key : KeyOf) (today : ℕ) where
  -- The answer is a period that is done, and no period that is done ends after it; there is no answer
  -- only if none is done.
  abbrev pub IsLastDone : List (PeriodOhlc W) → Option (PeriodOhlc W) → Type 0
  IsLastDone ps none = All (λ p. is_done key today p ≡ false) ps
  IsLastDone ps (some p) =
      IsIn p ps
      × (is_done key today p ≡ true)
      × All (λ q. q.end ≤ p.end) (select (is_done key today) ps)

  done_last :
      (ps : List (PeriodOhlc W))
      → (a : Option (PeriodOhlc W)) → previous_complete key ps today ≡ a
      → IsLastDone ps a
  unfolding previous_complete
  done_last ps none e =
      select-none (is_done key today) ps (last-sort_by-none _ (select (is_done key today) ps) e)
  done_last ps (some p) e =
      let done = select (is_done key today) ps in
      let r = last-sort_by (λ q. q.end) done p e in
      let own =
        All-at (λ q. IsIn q ps) done
          (All-select (λ q. IsIn q ps) (is_done key today) ps (All-IsIn ps)) r.0 in
      let passes =
        All-at (λ q. is_done key today q ≡ true) done (select-All (is_done key today) ps) r.0 in
      (own, passes, r.1)

  -- Of any periods in any order, `previous_complete` answers one that is done, and no period that is
  -- done ends after it: done is one that ends before today and is not of the running week or month.
  -- There is no answer only if no period is done.
  pub previous_complete_exact :
      (ps : List (PeriodOhlc W)) → IsLastDone ps (previous_complete key ps today)
  previous_complete_exact ps = done_last ps (previous_complete key ps today) refl
