-- ===== src/Engine/Overlap.antt =====
-- Entries that overlap: the second begins while the first one's order or ledger write is awaited.
use kotsin_nse.Prelude.{
  ◌+◌, ◌<◌, ◌==◌, ◌≡◌, refl, sym, ◌∙◌, String, true, false, Option, none, some, arith, ap,
}
use kotsin_nse.Prelude.Strings.{str_eq, str_eq_refl}
use kotsin_nse.Prelude.Dict.{Dict, lookup, insert, lookup-insert, values}
use kotsin_nse.Prelude.Counts.{count, count-insert_new}
use kotsin_nse.Num.{Num}
use kotsin_nse.Domain.{Time, Fill, Position, Instrument}
use kotsin_nse.Risk.Exposure.{open_in, is_mine, check}
use kotsin_nse.Exec.Gateway.{Reply, answered, failed}
use kotsin_nse.Engine.State.{Engine, limits_of, book_trades}
use kotsin_nse.Strategy.Signals.{Signal}
use kotsin_nse.Engine.Entry.{
  Pending, pending, begin, place_entry, reserve_entry, entry_levels, size_entry,
}
use kotsin_nse.Instrument.Choice.{Selection}
use kotsin_nse.Risk.Wallet.{Wallet, reserve}
use kotsin_nse.Engine.Settle.{LadderFor, Course, settle, open_position, register_fill, pay}
use kotsin_nse.Engine.Offer.{begin_offer, on_wallet_holdings}
use kotsin_nse.Engine.Steps.{place_entry_holdings}

abbrev pub fill_in : {W : Type 0} → Reply W → Option (Fill W)
fill_in failed = none
fill_in (answered r) = r.fill

module _ {W : Type 0} ⦃f : Num W⦄ where
  settle_filled :
      (ladder : LadderFor W) (id : String) (p : Pending W) (now : Time) (r : Reply W) (x : Fill W)
      (e : Engine W)
      → fill_in r ≡ some x
      → (settle ladder id p true now r e).1.positions
        ≡ insert id (open_position ladder id p x) e.positions
  unfolding settle register_fill
  settle_filled ladder id p now failed x e h = cc
  settle_filled ladder id p now (answered r) x e h =
      let pos = open_position ladder id p x in
      rw (h, register_fill)
        ((on_wallet_holdings p.signal.strategy (pay p x)
          (record e { positions = insert id pos e.positions })).0)

  -- A new position counts for its book.
  open_in-insert :
      (s : String) (ladder : LadderFor W) (id : String) (p : Pending W) (x : Fill W)
      (d : Dict (Position W))
      → p.signal.strategy ≡ s
      → lookup id d ≡ none
      → open_in s (values (insert id (open_position ladder id p x) d)) ≡ open_in s (values d) + 1
  unfolding open_in count is_mine open_position
  open_in-insert s ladder id p x d same n =
      let pos = open_position ladder id p x in
      ground (arith, same, str_eq_refl s, count-insert_new (is_mine s) id pos d n)

  -- The entry that the task holds, and the engine with its reservation.
  abbrev pub entry_of :
      Signal W → Selection W → Instrument W → Instrument W → Wallet W → Engine W → Pending W
  entry_of sig sel underlying inst w e =
      let levels = entry_levels sig inst sel.premium in
      let sizing = size_entry sig inst sel.premium levels w e in
      record {
        signal = sig;
        instrument = inst;
        underlying = underlying;
        premium = sel.premium;
        option_sl = levels.0;
        option_targets = levels.1;
        qty = sizing.qty;
        outlay = sizing.outlay;
      }

  abbrev pub reserved : Pending W → Time → Wallet W → Engine W → Engine W
  reserved p now w e = record e {
    wallets = insert p.signal.strategy (reserve p.outlay now w).1 e.wallets;
  }

  -- In `e` the signal has an underlying and a contract that its book trades, and its wallet is not
  -- halted and has the money for a size above 0; and the exposure check passes over the positions `d`.
  pub record IsAffordable (sig : Signal W) (sel : Selection W) (now : Time)
      (underlying inst : Instrument W) (w : Wallet W) (e : Engine W) (d : Dict (Position W))
      : Type 0 where
    pub known : lookup sig.symbol e.underlyings ≡ some underlying
    pub contract : sel.instrument ≡ some inst
    pub trades : book_trades sig.strategy underlying.segment ≡ true
    pub purse : lookup sig.strategy e.wallets ≡ some w
    pub free : w.halted ≡ false
    pub sized : ((entry_of sig sel underlying inst w e).qty == 0) ≡ false
    pub room :
        (check
          (limits_of sig.strategy)
          sig.strategy
          sig.symbol
          (entry_of sig sel underlying inst w e).outlay
          (values d)
          w.balance).allowed
        ≡ true
    pub money : (reserve (entry_of sig sel underlying inst w e).outlay now w).0 ≡ true

  reserves :
      (sig : Signal W) (sel : Selection W) (now : Time) (underlying inst : Instrument W)
      (w : Wallet W) (e : Engine W)
      → IsAffordable sig sel now underlying inst w e e.positions
      → reserve_entry sig underlying inst sel.premium now w e ≡ (
        pending (entry_of sig sel underlying inst w e),
        reserved (entry_of sig sel underlying inst w e) now w e,
      )
  unfolding reserve_entry
  reserves sig sel now underlying inst w e a = ground (arith, a.free, a.sized, a.room, a.money)

  begins :
      (sig : Signal W) (sel : Selection W) (now : Time) (underlying inst : Instrument W)
      (w : Wallet W) (e : Engine W)
      → IsAffordable sig sel now underlying inst w e e.positions
      → begin sig sel now e ≡ (
        pending (entry_of sig sel underlying inst w e),
        reserved (entry_of sig sel underlying inst w e) now w e,
      )
  unfolding begin
  begins sig sel now underlying inst w e a =
      rw (a.known, a.contract, a.trades, a.purse, begin)
        (reserves sig sel now underlying inst w e a)

  moved :
      {sig : Signal W} {sel : Selection W} {now : Time} {underlying inst : Instrument W}
      {w : Wallet W} {e : Engine W} {d : Dict (Position W)}
      → IsAffordable sig sel now underlying inst w e d
      → e.positions ≡ d
      → IsAffordable sig sel now underlying inst w e e.positions
  unfolding size_entry
  moved a h = record {
    known = a.known;
    contract = a.contract;
    trades = a.trades;
    purse = a.purse;
    free = a.free;
    sized = a.sized;
    room = rw h a.room;
    money = a.money;
  }

  -- Two tasks that enter for their signals: both begin, both send, and both are filled and settle.
  unfoldable pub overlap : Course W → Course W → Pending W → Pending W → Engine W → Engine W
  overlap c1 c2 p1 p2 e =
      let r1 = place_entry p1 c1.placed_at c1.place e in
      let r2 = place_entry p2 c2.placed_at c2.place r1.1 in
      let s1 = settle c1.ladder c1.id p1 true c1.settled_at r1.0 r2.1 in
      (settle c2.ladder c2.id p2 true c2.settled_at r2.0 s1.1).1

  -- The exposure check does not see an entry that is pending: let a book have room for one more
  -- position, and one of its signals have begun; then a second signal of the book, which the check would
  -- have allowed before the first began, and for which there is a contract, an open wallet and the money,
  -- begins as well, and if both are filled, as new positions under two ids, the book ends above its cap.
  pub overlap_passes_cap :
      (sig1 sig2 : Signal W) (c1 c2 : Course W) (p1 : Pending W) (x1 x2 : Fill W)
      (underlying inst : Instrument W) (w : Wallet W) (e e1 : Engine W)
      → begin sig1 c1.selection c1.begun_at e ≡ (pending p1, e1)
      → IsAffordable sig2 c2.selection c2.begun_at underlying inst w e1 e.positions
      → sig2.strategy ≡ p1.signal.strategy
      → let p2 = entry_of sig2 c2.selection underlying inst w e1 in
        let e2 = reserved p2 c2.begun_at w e1 in
        fill_in (place_entry p1 c1.placed_at c1.place e2).0 ≡ some x1
        → fill_in
            (place_entry p2 c2.placed_at c2.place (place_entry p1 c1.placed_at c1.place e2).1).0
          ≡ some x2
        → lookup c1.id e.positions ≡ none
        → lookup c2.id e.positions ≡ none
        → str_eq c2.id c1.id ≡ false
        → open_in p1.signal.strategy (values e.positions) + 1
          ≡ (limits_of {W = W} p1.signal.strategy).max_positions_per_strategy
        → (begin sig2 c2.selection c2.begun_at e1 ≡ (pending p2, e2))
          × ((limits_of {W = W} p1.signal.strategy).max_positions_per_strategy
              < open_in p1.signal.strategy (values (overlap c1 c2 p1 p2 e2).positions))
  unfolding overlap
  overlap_passes_cap sig1 sig2 c1 c2 p1 x1 x2 underlying inst w e e1 b1 a same f1 f2 n1 n2 d room =
      let p2 = entry_of sig2 c2.selection underlying inst w e1 in
      let e2 = reserved p2 c2.begun_at w e1 in
      let h1 : e1.positions ≡ e.positions =
        ap (λ o. o.1.positions) (sym b1) ∙ (begin_offer sig1 c1.selection c1.begun_at e).1.0 in
      let b2 = begins sig2 c2.selection c2.begun_at underlying inst w e1 (moved a h1) in
      let r1 = place_entry p1 c1.placed_at c1.place e2 in
      let r2 = place_entry p2 c2.placed_at c2.place r1.1 in
      let s1 = settle c1.ladder c1.id p1 true c1.settled_at r1.0 r2.1 in
      let g1 = (place_entry_holdings p1 c1.placed_at c1.place e2).0 in
      let g2 = (place_entry_holdings p2 c2.placed_at c2.place r1.1).0 in
      let at : r2.1.positions ≡ e.positions = g2 ∙ g1 ∙ h1 in
      let k1 = settle_filled c1.ladder c1.id p1 c1.settled_at r1.0 x1 r2.1 f1 in
      let k2 = settle_filled c2.ladder c2.id p2 c2.settled_at r2.0 x2 s1.1 f2 in
      let pos1 = open_position c1.ladder c1.id p1 x1 in
      let pos2 = open_position c2.ladder c2.id p2 x2 in
      let d1 = insert c1.id pos1 e.positions in
      let m = k2 ∙ ap (insert c2.id pos2) (k1 ∙ ap (insert c1.id pos1) at) in
      let n : lookup c2.id d1 ≡ none =
        ground (arith, lookup-insert c1.id c2.id pos1 e.positions, d, n2) in
      let one = open_in-insert p1.signal.strategy c1.ladder c1.id p1 x1 e.positions refl n1 in
      let two = open_in-insert p1.signal.strategy c2.ladder c2.id p2 x2 d1 same n in
      let counted = ap (λ q. open_in p1.signal.strategy (values q)) m in
      (b2, omega (arith, counted, one, two, room))
