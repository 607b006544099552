-- ===== src/Engine/Caps.antt =====
-- The position caps of the books, over the steps of the engine that no other task interrupts.
use kotsin_nse.Prelude.{◌≤◌, ◌≡◌, String, Bool, true, ◌&&◌, List, ◌∷◌, length, arith, ap}
use kotsin_nse.Prelude.Strings.{str_eq_iff}
use kotsin_nse.Prelude.Counts.{count, select-select}
use kotsin_nse.Num.{Num}
use kotsin_nse.Domain.{Position, opened}
use kotsin_nse.Risk.Limits.{RiskLimits}
use kotsin_nse.Risk.Exposure.{check, check_keeps_caps, open_in, same_in, is_mine, is_in}
use kotsin_nse.Engine.State.{limits_of}

module _ {W : Type 0} ⦃f : Num W⦄ where
  abbrev limits : String → RiskLimits W
  limits s = limits_of s

  -- Every book keeps to its two caps, and to its cap on every underlying.
  pub record IsWithinCaps (ps : List (Position W)) : Type 0 where
    pub books :
        (s : String)
        → (open_in s ps ≤ (limits s).max_positions_all_books)
          × (open_in s ps ≤ (limits s).max_positions_per_strategy)
    pub names : (s symbol : String) → same_in s symbol ps ≤ (limits s).max_positions_per_underlying

  abbrev both : String → String → Position W → Bool
  both s symbol p = is_mine s p && is_in symbol p

  same_in_lem :
      (s symbol : String) (ps : List (Position W)) → same_in s symbol ps ≡ count (both s symbol) ps
  unfolding same_in count
  same_in_lem s symbol ps = ap length (select-select (is_in symbol) (is_mine s) ps)

  -- `q` is not open unless `p` is, and is of the same book and underlying.
  pub record IsLike (p q : Position W) : Type 0 where
    pub status : q.status ≡ opened → p.status ≡ opened
    pub owner : q.strategy ≡ p.strategy
    pub parent : q.underlying ≡ p.underlying

  -- A test that passes no position but those it passed before a change.
  abbrev pub IsPlain : (Position W → Bool) → Type 0
  IsPlain t = (p q : Position W) → IsLike p q → t q ≡ true → t p ≡ true

  is_mine-IsPlain : (s : String) → IsPlain (is_mine s)
  unfolding is_mine
  is_mine-IsPlain s p q l h = ground (arith, l.status, l.owner)

  both-IsPlain : (s symbol : String) → IsPlain (both s symbol)
  unfolding is_mine is_in
  both-IsPlain s symbol p q l h = ground (arith, l.status, l.owner, l.parent)

  -- Positions of which no such test counts more are within the caps too.
  pub fewer-IsWithinCaps :
      (ps qs : List (Position W))
      → ((t : Position W → Bool) → IsPlain t → count t qs ≤ count t ps)
      → IsWithinCaps ps
      → IsWithinCaps qs
  unfolding open_in count
  fewer-IsWithinCaps ps qs h w = record {
    books = λ s. ground (arith, h (is_mine s) (is_mine-IsPlain s), w.books s);
    names = λ s symbol. ground (
      arith,
      h (both s symbol) (both-IsPlain s symbol),
      w.names s symbol,
      same_in_lem s symbol ps,
      same_in_lem s symbol qs,
    );
  }

  pub cons-IsWithinCaps :
      (outlay capital : W) (p : Position W) (ps : List (Position W))
      → (check (limits p.strategy) p.strategy p.underlying.symbol outlay ps capital).allowed ≡ true
      → IsWithinCaps ps
      → IsWithinCaps (p ∷ ps)
  unfolding open_in same_in is_mine is_in
  cons-IsWithinCaps outlay capital p ps a w = record {
    books = λ s. ground (
      arith,
      str_eq_iff p.strategy s,
      w.books s,
      check_keeps_caps (limits p.strategy) outlay capital p ps,
    );
    names = λ s symbol. ground (
      arith,
      str_eq_iff p.strategy s,
      str_eq_iff p.underlying.symbol symbol,
      w.names s symbol,
      check_keeps_caps (limits p.strategy) outlay capital p ps,
    );
  }
