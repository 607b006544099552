-- ===== src/Exec/Paper.antt =====
-- backend/kotsin_nse/exec/paper.py: fills against the order book. A level is a price with the
-- quantity on offer; the age of a book is kept in microseconds.
pub mod Walk
pub mod Bounds
use kotsin_nse.Prelude.{
  ℕ, ◌+◌, ◌-◌, ◌*◌, Bool, true, false, not, ◌&&◌, ◌||◌, Option, none, some, List, [], ◌∷◌, leb, ltb,
  ◌==◌, min, if◌then◌else◌,
}
use kotsin_nse.Prelude.Int.{sub_ℕ}
use kotsin_nse.Num.{Num, ◌⊕◌, ◌⊖◌, ◌⊗◌, ◌⊘◌, gt, lt, le, truthy, nought, of_nat, minus_one}
use kotsin_nse.Domain.{Time, OrderIntent, OrderSide, buy, sell, Fill, Instrument}
use kotsin_nse.Market.Session.{minute, ist_minute, second}
use kotsin_nse.Risk.Costs.{CostSettings, leg, total}
use Walk.{Fills, walk_book}

pub record BookSnapshot (W : Type 0) : Type 0 where
  pub bids : List (W × ℕ)
  pub asks : List (W × ℕ)
  pub ts : Time

-- `PaperMatcher`: its parameters, then its counters. The window is in minutes of the IST day.
pub record Matcher (W : Type 0) : Type 0 where
  pub costs : CostSettings W
  pub max_book_age : ℕ
  pub open_max_book_age : ℕ
  pub open_from : ℕ
  pub open_until : ℕ
  pub ceiling_pct : W
  pub fills : ℕ
  pub truncated : ℕ
  pub rejected_stale : ℕ

-- `Fill`, or the exception `NoBook` by its cause.
pub data Filled (W : Type 0) : Type 0 where
  filled : Fill W → Filled W
  no_price stale nothing_near : Filled W

abbrev pub is_buy : OrderSide → Bool
is_buy buy = true
is_buy sell = false

module _ {W : Type 0} ⦃f : Num W⦄ where
  abbrev best : List (W × ℕ) → Option W
  best [] = none
  best ((price, _) ∷ _) = some price

  -- `b or a`, with 0.0 as false
  abbrev or_else : Option W → Option W → Option W
  or_else none a = a
  or_else (some b) a = if truthy b then some b else a

  both_sides : Option W → Option W → Option W
  both_sides (some b) (some a) =
      if truthy b && truthy a then some ((b ⊕ a) ⊘ of_nat 2) else or_else (some b) (some a)
  both_sides b a = or_else b a

  unfoldable pub mid : BookSnapshot W → Option W
  unfolding both_sides
  mid book = both_sides (best book.bids) (best book.asks)

  -- `age_limit_ms`
  unfoldable pub age_limit : Matcher W → Time → ℕ
  age_limit m now =
      if leb m.open_from (ist_minute now) && ltb (ist_minute now) m.open_until
      then m.open_max_book_age
      else m.max_book_age

  abbrev pub side_of : OrderSide → BookSnapshot W → List (W × ℕ)
  side_of buy book = book.asks
  side_of sell book = book.bids

  abbrev sign_of : OrderSide → W
  sign_of buy = of_nat 1
  sign_of sell = minus_one

  -- `book.mid or touch`
  abbrev mid_or : Option W → W → W
  mid_or none touch = touch
  mid_or (some m) touch = if truthy m then m else touch

  -- The degraded path: the last price and the slippage allowance.
  fill_at_ltp : Matcher W → OrderIntent W → Option W → Time → Filled W × Matcher W
  fill_at_ltp m intent none now = (no_price, m)
  fill_at_ltp m intent (some ltp) now =
      let slip_bps = m.costs.slippage_bps_default in
      let price = ltp ⊗ (of_nat 1 ⊕ slip_bps ⊘ of_nat 10_000 ⊗ sign_of intent.side) in
      if le ltp nought then (no_price, m) else (
        filled (record {
          price = f.round 2 price;
          qty = intent.qty;
          ts = now;
          charges = total (leg m.costs intent.instrument intent.side price intent.qty);
          slippage_bps = some slip_bps;
          book_age = none;
          levels = 0;
        }),
        record m { fills = m.fills + 1 },
      )

  -- The price of a walk that took something, as a fill.
  book_fill : Matcher W → OrderIntent W → BookSnapshot W → W → Fills W → Time → Fill W
  unfolding mid
  book_fill m intent book touch walk now =
      let at_mid = mid_or (mid book) touch in
      let slip =
        if truthy at_mid
        then (walk.avg_price ⊖ at_mid) ⊘ at_mid ⊗ of_nat 10_000 ⊗ sign_of intent.side
        else nought in
      record {
        price = f.round 2 walk.avg_price;
        qty = walk.filled;
        ts = now;
        charges = total (leg m.costs intent.instrument intent.side walk.avg_price walk.filled);
        slippage_bps = some (f.round 2 slip);
        book_age = some (sub_ℕ now book.ts);
        levels = walk.levels;
      }

  fill_from_levels :
      Matcher W
      → OrderIntent W
      → BookSnapshot W
      → List (W × ℕ)
      → Option W
      → Time
      → Filled W × Matcher W
  unfolding fill_at_ltp book_fill age_limit
  fill_from_levels m intent book [] ltp now = fill_at_ltp m intent ltp now
  fill_from_levels m intent book ((touch, n) ∷ rest) ltp now =
      let walk =
        walk_book ((touch, n) ∷ rest) intent.qty touch m.ceiling_pct (is_buy intent.side) in
      if ltb (book.ts + age_limit m now) now
      then (stale, record m { rejected_stale = m.rejected_stale + 1 })
      else if walk.filled == 0
      then (nothing_near, m)
      else (
        filled (book_fill m intent book touch walk now),
        record m {
          fills = m.fills + 1;
          truncated = if ltb walk.filled intent.qty then m.truncated + 1 else m.truncated;
        },
      )

  -- `PaperMatcher.fill`
  unfoldable pub fill :
      Matcher W → OrderIntent W → Option (BookSnapshot W) → Option W → Time → Filled W × Matcher W
  unfolding fill_from_levels fill_at_ltp
  fill m intent none ltp now = fill_at_ltp m intent ltp now
  fill m intent (some book) ltp now =
      fill_from_levels m intent book (side_of intent.side book) ltp now

  -- `book_from_quote`
  unfoldable pub book_from_quote : W → W → ℕ → ℕ → Time → Option (BookSnapshot W)
  book_from_quote bid ask bid_qty ask_qty ts =
      if le bid nought || le ask nought || bid_qty == 0 || ask_qty == 0
      then none
      else some (record { bids = (bid, bid_qty) ∷ []; asks = (ask, ask_qty) ∷ []; ts = ts })
