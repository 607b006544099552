-- ===== src/Bars/Aggregator/Volume.antt =====
-- What the volume deltas of a run of ticks add up to.
use kotsin_nse.Prelude.{ℕ, ◌+◌, ◌-◌, ◌≤◌, ◌<◌, ◌≡◌, some, List, [], ◌∷◌, arith}
use kotsin_nse.Num.{Num}
use kotsin_nse.Bars.Aggregator.{SymbolState, Tick, volume_delta}

module _ {W : Type 0} ⦃f : Num W⦄ where
  -- The shares that the ticks book, one after the other, and the state behind them.
  unfoldable pub booked : List (Tick W) → SymbolState W → ℕ × SymbolState W
  unfolding volume_delta
  booked [] st = (0, st)
  booked (t ∷ ts) st =
      let (n, st') = volume_delta t st in let (m, st'') = booked ts st' in (n + m, st'')

  -- The day's total only grows from `b` on.
  abbrev pub IsRising : ℕ → List (Tick W) → Type 0
  IsRising b [] = Unit
  IsRising b (t ∷ ts) = (0 < t.total_qty) × (b ≤ t.total_qty) × IsRising t.total_qty ts

  unfoldable pub final_total : ℕ → List (Tick W) → ℕ
  final_total b [] = b
  final_total b (t ∷ ts) = final_total t.total_qty ts

  telescopes :
      (ts : List (Tick W)) (st : SymbolState W) (b : ℕ)
      → st.last_total_qty ≡ some b
      → IsRising b ts
      → (b + (booked ts st).0 ≡ final_total b ts)
        × ((booked ts st).1.last_total_qty ≡ some (final_total b ts))
  unfolding booked final_total
  telescopes [] st b e h = (omega arith, e)
  telescopes (t ∷ ts) st b e h =
      ground (arith, h.0, h.1, telescopes ts (volume_delta t st).1 t.total_qty)

  -- Volume is not lost with a tick: two runs of ticks that start from the same total, whose totals are
  -- above 0 and never fall, each at least the one before, and that end at the same total book the same
  -- volume, the growth of the total, however many of the ticks between are missing from either.
  pub volume_conserved :
      (ts us : List (Tick W)) (st : SymbolState W) (b : ℕ)
      → st.last_total_qty ≡ some b
      → IsRising b ts
      → IsRising b us
      → final_total b ts ≡ final_total b us
      → ((booked ts st).0 ≡ (booked us st).0)
        × ((booked ts st).0 ≡ final_total b ts - b)
        × ((booked ts st).1.last_total_qty ≡ (booked us st).1.last_total_qty)
  volume_conserved ts us st b e h k same =
      let p = telescopes ts st b e h in let q = telescopes us st b e k in ground (arith, p, q, same)
