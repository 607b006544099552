-- ===== src/Bars/Periods.antt =====
-- backend/kotsin_nse/bars/periods.py: the completed weeks and months that the pivots read. The key of
-- a day, `isocalendar()[:2]` for a week and year and month for a month, is a parameter, since it is
-- the calendar of the library datetime; the label of a period is left out.
pub mod Previous
use kotsin_nse.Prelude.{
  ℕ, Bool, not, ◌&&◌, ◌==◌, ltb, Option, none, some, List, [], ◌∷◌, ◌++◌, last?, select,
  if◌then◌else◌,
}
use kotsin_nse.Prelude.Sort.{sort_by, min_from}
use kotsin_nse.Num.{Num, ◌⊕◌, nought, max_of, min_of}
use kotsin_nse.Market.Session.{ist_day}
use kotsin_nse.Bars.Bar.{UnifiedBar}

pub data PeriodKind : Type 0 where
  week month : PeriodKind

-- `start` and `end` are days.
pub record PeriodOhlc (W : Type 0) : Type 0 where
  pub kind : PeriodKind
  pub start : ℕ
  pub end : ℕ
  pub open_price : W
  pub high : W
  pub low : W
  pub close_price : W
  pub volume : W

-- `_WEEK_KEY` and `_MONTH_KEY`
abbrev pub KeyOf : Type 0
KeyOf = PeriodKind → ℕ → ℕ × ℕ

abbrev pub same_unit : ℕ × ℕ → ℕ × ℕ → Bool
same_unit a b = a.0 == b.0 && a.1 == b.1

-- An entry of the dict `groups`: the bars of a key, which are never none.
pub record Group (W : Type 0) : Type 0 where
  pub key : ℕ × ℕ
  pub first : UnifiedBar W
  pub others : List (UnifiedBar W)

module _ {W : Type 0} ⦃f : Num W⦄ where
  -- `groups.setdefault(key, []).append(b)`
  unfoldable pub put_bar : ℕ × ℕ → UnifiedBar W → List (Group W) → List (Group W)
  put_bar k b [] = record { key = k; first = b; others = [] } ∷ []
  put_bar k b (g ∷ gs) =
      let rest = put_bar k b gs in
      if same_unit k g.key then record g { others = g.others ++ b ∷ [] } ∷ gs else g ∷ rest

  unfoldable pub group_from : (ℕ → ℕ × ℕ) → List (Group W) → List (UnifiedBar W) → List (Group W)
  unfolding put_bar
  group_from key gs [] = gs
  group_from key gs (b ∷ bs) = group_from key (put_bar (key (ist_day b.ts)) b gs) bs

  abbrev days_of : List (UnifiedBar W) → List ℕ
  days_of [] = []
  days_of (b ∷ bs) = ist_day b.ts ∷ days_of bs

  -- `min(ist_day(b.ts) for b in groups[g])`
  abbrev first_day : Group W → ℕ
  first_day g = min_from ltb (ist_day g.first.ts) (days_of g.others)

  abbrev highest : W → List (UnifiedBar W) → W
  highest x [] = x
  highest x (b ∷ bs) = highest (max_of x b.high) bs

  abbrev lowest : W → List (UnifiedBar W) → W
  lowest x [] = x
  lowest x (b ∷ bs) = lowest (min_of x b.low) bs

  abbrev volume_from : W → List (UnifiedBar W) → W
  volume_from x [] = x
  volume_from x (b ∷ bs) = volume_from (x ⊕ b.volume) bs

  final_bar : UnifiedBar W → List (UnifiedBar W) → UnifiedBar W
  final_bar b [] = b
  final_bar b (c ∷ cs) = final_bar c cs

  -- The period of the bars of one key, in the order of time.
  unfoldable pub period_of : PeriodKind → List (UnifiedBar W) → Option (PeriodOhlc W)
  unfolding final_bar
  period_of kind [] = none
  period_of kind (r ∷ rs) = some record {
    kind = kind;
    start = min_from ltb (ist_day r.ts) (days_of rs);
    end = min_from (λ a b. ltb b a) (ist_day r.ts) (days_of rs);
    open_price = r.open_price;
    high = highest r.high rs;
    low = lowest r.low rs;
    close_price = (final_bar r rs).close_price;
    volume = volume_from nought (r ∷ rs);
  }

  abbrev by_time : List (UnifiedBar W) → List (UnifiedBar W)
  by_time = sort_by (λ a b. ltb a.ts b.ts)

  unfoldable pub periods_of : PeriodKind → List (Group W) → List (PeriodOhlc W)
  unfolding period_of
  periods_of kind [] = []
  periods_of kind (g ∷ gs) =
      let rest = periods_of kind gs in
      elim (period_of kind (by_time (g.first ∷ g.others))) [ none ↦ rest | some p ↦ p ∷ rest ]

  -- `_aggregate`, and with it `weekly` and `monthly`
  unfoldable pub aggregate : KeyOf → PeriodKind → List (UnifiedBar W) → List (PeriodOhlc W)
  unfolding group_from periods_of
  aggregate key kind bars =
      periods_of kind
        (sort_by (λ g h. ltb (first_day g) (first_day h)) (group_from (key kind) [] bars))

  -- `p.end < today and not running`
  unfoldable pub is_done : KeyOf → ℕ → PeriodOhlc W → Bool
  is_done key today p = ltb p.end today && not (same_unit (key p.kind p.start) (key p.kind today))

  unfoldable pub previous_complete : KeyOf → List (PeriodOhlc W) → ℕ → Option (PeriodOhlc W)
  unfolding is_done
  previous_complete key periods today =
      last? (sort_by (λ p q. ltb p.end q.end) (select (is_done key today) periods))
