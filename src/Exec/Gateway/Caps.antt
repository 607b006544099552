-- ===== src/Exec/Gateway/Caps.antt =====
-- The daily cap of the capped live mode, over a day's orders.
use kotsin_nse.Prelude.{
  ℕ, ◌+◌, ◌-◌, ◌≤◌, ◌<◌, ◌≡◌, true, false, ◌&&◌, Option, none, some, List, [], ◌∷◌, arith, All, ap,
  if◌then◌else◌,
}
use kotsin_nse.Num.{Num}
use kotsin_nse.Domain.{OrderIntent}
use kotsin_nse.Market.Session.{ist_day}
use kotsin_nse.Exec.Gateway.{
  LiveContext, Gateway, Inputs, Placement, returned, raised, submit_live, breaks_cap, is_entry,
  live_capped, OrderResult, LiveCaps, Reply,
}
use kotsin_nse.Exec.Gateway.Calls.{is_placed, reply_result}

pub record LiveOrder (W : Type 0) : Type 0 where
  pub intent : OrderIntent W
  pub ctx : LiveContext W
  pub inputs : Inputs W
  pub place : Option (Placement W)

-- 1 if the result is an entry that was answered as placed.
abbrev pub placed_entry : {W : Type 0} → OrderIntent W → Option (OrderResult W) → ℕ
placed_entry intent none = 0
placed_entry intent (some r) = if is_placed r.decision && is_entry intent.purpose then 1 else 0

module _ {W : Type 0} ⦃f : Num W⦄ where
  abbrev sent : LiveOrder W → Gateway W → Option (OrderResult W) × Gateway W
  sent o g = let (r, g') = submit_live o.intent o.ctx o.inputs o.place g in (reply_result r, g')

  -- How many entries a sequence of live orders places, one order after the other.
  unfoldable pub entries : List (LiveOrder W) → Gateway W → ℕ
  entries [] g = 0
  entries (o ∷ os) g = placed_entry o.intent (sent o g).0 + entries os (sent o g).1

  abbrev pub OnDay : ℕ → LiveOrder W → Type 0
  OnDay d o = (o.inputs.mode ≡ live_capped) × (ist_day o.inputs.now ≡ d)

  -- What a live order does to the day's counts.
  record Counts (intent : OrderIntent W) (g : Gateway W) (out : Reply W × Gateway W) : Type 0 where
    grows : placed_entry intent (reply_result out.0) + g.orders_today ≤ out.1.orders_today
    room : placed_entry intent (reply_result out.0) ≤ g.caps.max_orders_per_day - g.orders_today
    day : out.1.day ≡ g.day
    caps : out.1.caps ≡ g.caps

  breaks_cap_orders :
      (intent : OrderIntent W) (ctx : LiveContext W) (ltp : Option W) (g : Gateway W)
      → is_entry intent.purpose ≡ true
      → breaks_cap intent ctx ltp g ≡ false
      → g.orders_today < g.caps.max_orders_per_day
  unfolding breaks_cap
  breaks_cap_orders intent ctx ltp g e h = ground arith

  abbrev marked : OrderIntent W → Gateway W → Gateway W
  marked intent g = record g { seen = intent.client_order_id ∷ g.seen }

  submit_live-Counts :
      (intent : OrderIntent W) (ctx : LiveContext W) (i : Inputs W) (place : Option (Placement W))
      (g : Gateway W)
      → i.mode ≡ live_capped
      → ist_day i.now ≡ g.day
      → Counts intent g (submit_live intent ctx i place g)
  unfolding submit_live
  submit_live-Counts intent ctx i none g m d = ground arith
  submit_live-Counts intent ctx i (some raised) g m d = ground arith
  submit_live-Counts intent ctx i (some (returned res)) g m d =
      ground (arith, breaks_cap_orders intent ctx i.ltp (marked intent g))

  -- In the capped live mode a day's live orders, exits and retries among them, none of which begins while
  -- the placement of another is awaited, place no more entries that are answered as submitted than the
  -- day had left: those in the gateway's count are deducted. An order whose placement raised is not
  -- counted, here as in the gateway.
  pub entries-le :
      (os : List (LiveOrder W)) (g : Gateway W)
      → All (OnDay g.day) os
      → entries os g ≤ g.caps.max_orders_per_day - g.orders_today
  unfolding entries
  entries-le [] g h = omega arith
  entries-le (o ∷ os) g h =
      let c = submit_live-Counts o.intent o.ctx o.inputs o.place g h.0.0 h.0.1 in
      let g' = (sent o g).1 in
      let rest : All (OnDay g'.day) os = rw c.day h.1 in
      let ih = entries-le os g' rest in
      let same : g'.caps.max_orders_per_day ≡ g.caps.max_orders_per_day =
        ap (λ (x : LiveCaps W). x.max_orders_per_day) c.caps in
      omega (arith, ih, same, c.grows, c.room)
