-- ===== src/Risk/Sizing.antt =====
-- backend/kotsin_nse/risk/sizing.py, and `qty_for_budget` of instrument/select.py: how many lots.
-- The reason of a result is left out.
use kotsin_nse.Prelude.{
  ℕ, ◌*◌, ◌/◌, ◌≤◌, ◌≡◌, Bool, false, ◌&&◌, ◌||◌, Option, none, some, arith, ◌==◌, ltb, min, max,
  if◌then◌else◌,
}
use kotsin_nse.Prelude.Int.{pos_part}
use kotsin_nse.Num.{Num, ◌⊖◌, ◌⊗◌, ◌⊘◌, gt, le, nought, of_nat, truthy, max_of, min_of}
use kotsin_nse.Domain.{Instrument, equity, qty_step}
use kotsin_nse.Risk.Costs.{CostSettings, round_trip, total}
use kotsin_nse.Risk.Limits.{RiskLimits, position_budget}

pub record SizingResult (W : Type 0) : Type 0 where
  pub qty : ℕ
  pub lots : ℕ
  pub outlay : W
  pub risk_inr : W
  pub cost_share : Option W

-- `lots_of`
unfoldable pub lots_of : {W : Type 0} → Instrument W → ℕ → ℕ
lots_of i qty = elim i.kind [ equity ↦ qty | _ ↦ qty / max 1 i.lot_size ]

-- `limits.max_lots`, where there is one
abbrev pub within_lots : Option ℕ → ℕ → ℕ
within_lots none lots = lots
within_lots (some m) lots = if ltb m lots then m else lots

within_lots_lem :
    (m : Option ℕ) (n : ℕ)
    → (within_lots m n ≤ n) × (within_lots m n ≤ within_lots m (within_lots m n))
within_lots_lem none n = ground arith
within_lots_lem (some m) n = ground arith

module _ {W : Type 0} ⦃f : Num W⦄ where
  abbrev declined : SizingResult W
  declined = record { qty = 0; lots = 0; outlay = nought; risk_inr = nought; cost_share = none }

  -- The lots that the risk and the budget allow, before the lot ceiling; a negative count is none.
  unfoldable pub lots_within : Instrument W → W → W → W → W → RiskLimits W → ℕ
  unfolding position_budget min_of qty_step
  lots_within i premium per_unit_risk balance available lim =
      let step = qty_step i in
      let risk_budget = balance ⊗ lim.risk_per_trade_pct ⊘ of_nat 100 in
      let unit_cost = premium ⊗ of_nat step ⊗ of_nat i.multiplier in
      let by_risk = f.floor_div risk_budget (per_unit_risk ⊗ of_nat step ⊗ of_nat i.multiplier) in
      let by_budget = f.floor_div (min_of (position_budget lim balance) available) unit_cost in
      min (pos_part by_risk) (pos_part by_budget)

  -- The share of the move to the first target that the charges take.
  unfoldable pub cost_share_of : CostSettings W → Instrument W → W → Option W → ℕ → Option W
  unfolding round_trip total
  cost_share_of s i premium none qty = none
  cost_share_of s i premium (some t1) qty =
      let charges = total (round_trip s i premium t1 qty) in
      let gain = (t1 ⊖ premium) ⊗ of_nat qty ⊗ of_nat i.multiplier in
      if truthy t1 && gt t1 premium && gt gain nought then some (charges ⊘ gain) else none

  abbrev over : Option W → W → Bool
  over none cap = false
  over (some x) cap = gt x cap

  -- `size_position`
  unfoldable pub size_position :
      Instrument W → W → W → Option W → W → W → RiskLimits W → CostSettings W → W → SizingResult W
  unfolding lots_within cost_share_of max_of qty_step
  size_position i premium option_stop target1 balance available lim s max_cost_share =
      let per_unit_risk = max_of nought (premium ⊖ option_stop) in
      let step = qty_step i in
      let lots =
        within_lots lim.max_lots (lots_within i premium per_unit_risk balance available lim) in
      let qty = lots * step in
      let share = cost_share_of s i premium target1 qty in
      let refused = over share max_cost_share in
      if le premium nought
        || le balance nought
        || le per_unit_risk nought
        || le (premium ⊗ of_nat step ⊗ of_nat i.multiplier) nought
        || lots == 0
      then declined
      else record {
        qty = if refused then 0 else qty;
        lots = if refused then 0 else lots;
        outlay = premium ⊗ of_nat qty ⊗ of_nat i.multiplier;
        risk_inr = per_unit_risk ⊗ of_nat qty ⊗ of_nat i.multiplier;
        cost_share = share;
      }

  -- `qty_for_budget`
  unfoldable pub qty_for_budget : Instrument W → W → W → Option ℕ → ℕ
  qty_for_budget i price budget max_lots =
      let per_lot = price ⊗ of_nat i.lot_size ⊗ of_nat i.multiplier in
      let lots = pos_part (f.floor_div budget per_lot) in
      let capped : ℕ = elim max_lots [ none ↦ lots | some m ↦ min lots m ] in
      if le price nought || le budget nought || i.multiplier == 0 then 0 else elim i.kind [
        | equity ↦ pos_part (f.floor_div budget (price ⊗ of_nat i.multiplier))
        | _ ↦ if le per_lot nought then 0 else capped * i.lot_size
      ]

  -- A size is whole lots: as many as `lots` says, none beyond the lot ceiling, and none beyond what
  -- the risk and the money budgets allow; a size that is not 0 has at least one step.
  pub size_position_lem :
      (i : Instrument W) (premium stop : W) (target1 : Option W) (balance available : W)
      (lim : RiskLimits W) (s : CostSettings W) (cap : W)
      → let r = size_position i premium stop target1 balance available lim s cap in
        (r.qty ≡ r.lots * qty_step i)
        × (r.lots ≤ within_lots lim.max_lots r.lots)
        × (r.lots ≤ lots_within i premium (max_of nought (premium ⊖ stop)) balance available lim)
  unfolding size_position
  size_position_lem i premium stop target1 balance available lim s cap =
      let lots = lots_within i premium (max_of nought (premium ⊖ stop)) balance available lim in
      let fits = within_lots_lem lim.max_lots lots in ground (arith, fits)
