-- ===== src/Bars/Store.antt =====
-- backend/kotsin_nse/bars/store.py. The two dicts are functions of the symbol and the timeframe; a
-- series is kept newest first, so that `series[-1]` is its head.
pub mod Series
pub mod Refinement
use kotsin_nse.Prelude.{
  ℕ, String, Bool, true, false, not, ◌&&◌, Option, none, some, List, [], ◌∷◌, length, take, ◌==◌,
  if◌then◌else◌,
}
use kotsin_nse.Prelude.Strings.{str_eq}
use kotsin_nse.Market.Session.{Frame, same_frame}
use kotsin_nse.Bars.Bar.{UnifiedBar, is_partial}
use Series.{install, merge_all, setdefault_all}

pub record BarStore (W : Type 0) : Type 0 where
  pub max_bars : ℕ
  pub closed : String → Frame → List (UnifiedBar W)
  pub forming : String → Frame → Option (UnifiedBar W)

module _ {V : Type 0} where
  -- `d[(symbol, tf)] = v`
  unfoldable pub set_at : String → Frame → V → (String → Frame → V) → String → Frame → V
  set_at symbol tf v d s t = if str_eq symbol s && same_frame tf t then v else d s t

module _ {W : Type 0} where
  unfoldable pub set_forming : UnifiedBar W → BarStore W → BarStore W
  unfolding set_at
  set_forming bar s = record s { forming = set_at bar.symbol bar.tf (some bar) s.forming }

  -- The series after `close`: a bar of the bucket that stands last replaces it, unless a partial bar
  -- would replace another; a bar of another bucket is appended, and the oldest beyond the cap go.
  unfoldable pub close_series : ℕ → UnifiedBar W → List (UnifiedBar W) → List (UnifiedBar W)
  close_series cap bar [] = take cap (bar ∷ [])
  close_series cap bar (b ∷ bs) =
      if b.ts == bar.ts
      then (if not (is_partial b.source) && is_partial bar.source then b ∷ bs else bar ∷ bs)
      else take cap (bar ∷ b ∷ bs)

  -- `close`
  unfoldable pub close : UnifiedBar W → BarStore W → UnifiedBar W × BarStore W
  unfolding close_series set_at
  close bar s =
      let done = record bar { complete = true } in
      (
        done,
        record s {
          closed =
              set_at bar.symbol bar.tf (close_series s.max_bars done (s.closed bar.symbol bar.tf))
                s.closed;
          forming = set_at bar.symbol bar.tf none s.forming;
        },
      )

  -- `replace_closed`
  unfoldable pub replace_closed : UnifiedBar W → BarStore W → Bool × BarStore W
  unfolding set_at install
  replace_closed bar s =
      let (replaced, series) =
        install (record bar { complete = true }) (s.closed bar.symbol bar.tf) in
      (replaced, record s { closed = set_at bar.symbol bar.tf series s.closed })

  -- `seed`; `bars` is in the order given. A store holds at least one bar: `series[-0:]` would be all.
  unfoldable pub seed : String → Frame → List (UnifiedBar W) → BarStore W → ℕ × BarStore W
  unfolding set_at merge_all setdefault_all
  seed symbol tf bars s =
      let merged = setdefault_all (s.closed symbol tf) (merge_all bars []) in
      let series = take s.max_bars merged in
      (length series, record s { closed = set_at symbol tf series s.closed })

  -- `bars`, newest first; the default of `n` is 0 here, which like None asks for the whole series.
  unfoldable pub bars : String → Frame → ℕ → BarStore W → List (UnifiedBar W)
  bars symbol tf n s = let series = s.closed symbol tf in if n == 0 then series else take n series

  -- `last`
  unfoldable pub last : String → Frame → BarStore W → Option (UnifiedBar W)
  last symbol tf s = elim (s.closed symbol tf) [ [] ↦ none | b ∷ bs ↦ some b ]
