-- ===== src/Tests/Exec.antt =====
-- Paper fills and the reconciliation at concrete inputs.
use kotsin_nse.Prelude.{
  ◌≤◌, ◌≡◌, ◌↔◌, refl, true, false, not, ◌&&◌, none, some, [], ◌∷◌, min, leb, length,
}
use kotsin_nse.Prelude.Int.{pos, ◌+ℤ◌, ◌-ℤ◌, ◌*ℤ◌}
use kotsin_nse.Num.Cents.{Cents, cents_num}
use kotsin_nse.Domain.{Fill}
use kotsin_nse.Exec.Paper.Walk.{walk_book, walk_book_lem, reachable, depth, blocked, limit_of}
use kotsin_nse.Exec.Reconcile.{VenueRow, Reconciler, run, venue_of, local_of}
use kotsin_nse.Exec.Reconcile.Agreement.{Agree, reconcile_exact, shared_contract_freezes}
use kotsin_nse.Tests.Data.{asks, ten, position}

-- 90 of the 100 stand below the ceiling of 5 %.
walk-asks : (walk_book asks 100 (pos 10_000) (pos 500) true).filled ≡ 90
unfolding walk_book ◌+ℤ◌ ◌-ℤ◌ ◌*ℤ◌
walk-asks = refl

walk_book_lem_example :
    let w = walk_book asks 100 (pos 10_000) (pos 500) true in
    let near = reachable true (limit_of (pos 10_000) (pos 500) true) asks in
    (w.filled ≡ min 100 (depth near))
    × (w.levels ≤ length near)
    × (w.capped
        ≡ (blocked true (limit_of (pos 10_000) (pos 500) true) asks && not (leb 100 (depth near))))
walk_book_lem_example = walk_book_lem asks 100 (pos 10_000) (pos 500) true

abbrev bought : Fill Cents
bought = record {
  price = pos 10_033;
  qty = 90;
  ts = ten;
  charges = pos 5_038;
  slippage_bps = some (pos 0);
  book_age = some (pos 0);
  levels = 2;
}

abbrev row : VenueRow
row = record { scrip_code = "42"; symbol = "NIFTY"; net_qty = pos 100 }

abbrev thawed : Reconciler
thawed = record { last = record { checked = 0; mismatches = []; error = false }; frozen = false }

reconcile_exact_example :
    (((run (some (row ∷ [])) (position ∷ []) true thawed).1.frozen ≡ false)
      ↔ Agree (venue_of (row ∷ [])) (local_of (position ∷ []) true))
    × ((run none (position ∷ []) true thawed).1.frozen ≡ true)
reconcile_exact_example = reconcile_exact (row ∷ []) (position ∷ []) true thawed

shared_contract_freezes_example :
    (run
      (some (record row { net_qty = pos 200 } ∷ []))
      (position ∷ position ∷ [])
      true
      thawed).1.frozen
    ≡ true
shared_contract_freezes_example =
    shared_contract_freezes position position "NIFTY" thawed refl refl refl
