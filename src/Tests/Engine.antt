-- ===== src/Tests/Engine.antt =====
-- The orchestrator at concrete data: one book, two underlyings and one contract.
use kotsin_nse.Prelude.{
  ℕ, zero, suc, ◌+◌, ◌*◌, ◌<◌, ◌≤◌, ◌≡◌, refl, String, true, false, Option, none, some, List, [],
  ◌∷◌, arith, ap, sym, ◌∙◌, inl, inr, Bool-cases,
}
use kotsin_nse.Prelude.Int.{pos, ◌+ℤ◌, ◌-ℤ◌, ◌*ℤ◌}
use kotsin_nse.Prelude.Strings.{concat, str_eq, str_eq_iff}
use kotsin_nse.Prelude.Dict.{Dict, lookup, values}
use kotsin_nse.Num.{◌⊕◌}
use mathlib.Core.Option.{some-injective}
use kotsin_nse.Num.Cents.{Cents, cents_num}
use kotsin_nse.Domain.{
  Instrument, nse_eq, equity, no_option, bullish, closed, Time, Fill, Position, ExitDecision,
}
use kotsin_nse.Market.Session.{second, minute, past_force_flat}
use kotsin_nse.Risk.Wallet.{Wallet, new_wallet}
use kotsin_nse.Risk.Exposure.{open_in, same_in}
use kotsin_nse.Exec.Gateway.{paper, live, live_capped, Reply, Placement}
use kotsin_nse.Engine.Control.{
  ControlRow, choose_mode, choose_halt, restart, Call, act_all, load_control, effective_mode,
}
use kotsin_nse.Engine.Control.Restarts.{mode_as_asked, in_force, last_asked, last_halt}
use kotsin_nse.Engine.State.{Engine, limits_of, is_halted}
use kotsin_nse.Strategy.Signals.{Signal}
use kotsin_nse.Engine.Entry.{Pending, Begun, refused, pending, begin, place_entry}
use kotsin_nse.Engine.Settle.{Course, settle, open_position, handle_signal}
use kotsin_nse.Engine.Overlap.{
  overlap, overlap_passes_cap, fill_in, IsAffordable, entry_of, reserved,
}
use kotsin_nse.Exec.Paper
use kotsin_nse.Exec.Paper.Walk.{walk_book}
use kotsin_nse.Engine.Twin.{mirror_one, twin_of, twin_cost, pay_twin, skip_twin}
use kotsin_nse.Engine.Mirror.{closed_twin_stays}
use kotsin_nse.Engine.Exit.{manage_position, exit_intent, finish_exit}
use kotsin_nse.Engine.Forced.{IsExitOrder, forced_exit_sent, evaluated, handed_over}
use kotsin_nse.Engine.Steps.{IsNamed}
use kotsin_nse.Engine.Caps.{IsWithinCaps}
use kotsin_nse.Engine.Runs.{EngineRun, done, more, signal_step, caps_hold}
use kotsin_nse.Tests.Data.{call_option, costs, gateway, book, position, ten, live_fill}

-- A boot on paper, an arming for ten minutes, and a restart five minutes later.
abbrev paper_row : ControlRow
paper_row = record { mode = paper; armed_until = none; halted = false }

abbrev calls : List Call
calls =
    choose_mode ten live (some (pos 10))
    ∷ choose_halt ten true
    ∷ choose_mode (ten + minute) live_capped none
    ∷ restart (ten + 5 * minute)
    ∷ []

mode_as_asked_example :
    (effective_mode (ten + 11 * minute) (act_all calls (load_control ten paper_row))
      ≡ in_force (ten + 11 * minute) (last_asked calls (paper, none)))
    × ((act_all calls (load_control ten paper_row)).halted ≡ last_halt calls false)
mode_as_asked_example =
    mode_as_asked (ten + 11 * minute) ten paper_row calls (omega arith) (ground arith)

-- Armed at ten minutes, paper at eleven.
armed_test : effective_mode (ten + 10 * minute) (act_all calls (load_control ten paper_row)) ≡ live
unfolding effective_mode act_all load_control
armed_test = refl

expired_test :
    effective_mode (ten + 11 * minute) (act_all calls (load_control ten paper_row)) ≡ paper
unfolding effective_mode act_all load_control
expired_test = refl

abbrev stock : String → Instrument Cents
stock symbol = record {
  scrip_code = symbol;
  symbol = symbol;
  segment = nse_eq;
  kind = equity;
  lot_size = 1;
  tick_size = pos 5;
  multiplier = 1;
  strike = pos 0;
  option_type = no_option;
}

abbrev tag : ℕ → String
tag zero = "p"
tag (suc n) = concat "p" (tag n)

-- As many positions of a book.
abbrev many : String → ℕ → Dict (Position Cents)
many strategy zero = []
many strategy (suc n) =
    (tag n, record position { id = tag n; strategy = strategy; underlying = stock (tag n) })
    ∷ many strategy n

abbrev engine : String → Dict (Position Cents) → Engine Cents
engine strategy positions = record {
  control = record { mode = paper; armed_until = none; halted = false; row = paper_row };
  frozen = false;
  gateway = gateway;
  wallets = (strategy, new_wallet strategy (pos 100_000_000) ten) ∷ [];
  positions = positions;
  underlyings = ("NIFTY", stock "NIFTY") ∷ ("BANK", stock "BANK") ∷ [];
  ltps = ("42", pos 10_000) ∷ [];
  quotes = ("42", record { ltp = pos 10_000; bid = pos 9_900; ask = pos 10_000; ts = ten }) ∷ [];
  books = ("42", book) ∷ [];
  costs = costs;
  quote_max_age = 60 * second;
}

abbrev signal : String → String → String → Signal Cents
signal strategy symbol id = record {
  strategy = strategy;
  symbol = symbol;
  direction = bullish;
  ts = ten;
  entry_price = pos 2_500_000;
  stop = pos 2_490_000;
  targets = pos 2_520_000 ∷ [];
  rr = pos 200;
  score = pos 7_000;
  gates = [];
  source_signal_id = id;
}

abbrev course : String → Course Cents
course id = record {
  selection = record {
    instrument = some call_option;
    premium = pos 10_000;
    anchor = pos 0;
    spread = none;
  };
  begun_at = ten;
  placed_at = ten;
  place = none;
  written = true;
  settled_at = ten;
  ladder = λ symbol i price lim. ([], pos 0);
  id = id;
}

abbrev no_pending : Pending Cents
no_pending = record {
  signal = signal "" "" "";
  instrument = call_option;
  underlying = call_option;
  premium = pos 0;
  option_sl = pos 0;
  option_targets = [];
  qty = 0;
  outlay = pos 0;
}

abbrev pending_of : Begun Cents → Pending Cents
pending_of (refused r) = no_pending
pending_of (pending p) = p

begin_test :
    (pending_of
      (begin (signal "FUKAA" "NIFTY" "a") (course "x").selection ten (engine "FUKAA" [])).0).qty
    ≡ 200
unfolding begin new_wallet ◌+ℤ◌ ◌-ℤ◌ ◌*ℤ◌
begin_test = refl

-- 29 positions are open and the cap is 30: two signals that close their bars together.
abbrev crowded : Engine Cents
crowded = engine "FUKAA" (many "FUKAA" 29)

abbrev first_begun : Begun Cents × Engine Cents
first_begun = begin (signal "FUKAA" "NIFTY" "a") (course "x").selection ten crowded

abbrev second_signal : Signal Cents
second_signal = signal "FUKAA" "BANK" "b"

abbrev wallet_or : Option (Wallet Cents) → Wallet Cents
wallet_or none = new_wallet "" (pos 0) ten
wallet_or (some w) = w

-- The purse after the first reservation.
abbrev second_purse : Wallet Cents
second_purse = wallet_or (lookup "FUKAA" first_begun.1.wallets)

abbrev second_pending : Pending Cents
second_pending =
    entry_of second_signal (course "y").selection (stock "BANK") call_option second_purse
      first_begun.1

abbrev both_begun : Engine Cents
both_begun = reserved second_pending ten second_purse first_begun.1

second_signal-IsAffordable :
    IsAffordable second_signal
      (course "y").selection
      ten
      (stock "BANK")
      call_option
      second_purse
      first_begun.1
      crowded.positions
unfolding begin limits_of new_wallet ◌+ℤ◌ ◌-ℤ◌ ◌*ℤ◌
second_signal-IsAffordable = record {
  known = refl;
  contract = refl;
  trades = refl;
  purse = refl;
  free = refl;
  sized = refl;
  room = refl;
  money = refl;
}

abbrev fill_or : Option (Fill Cents) → Fill Cents
fill_or none = live_fill
fill_or (some x) = x

abbrev first_sent : Reply Cents × Engine Cents
first_sent = place_entry (pending_of first_begun.0) ten none both_begun

abbrev second_sent : Reply Cents × Engine Cents
second_sent = place_entry second_pending ten none first_sent.1

overlap_passes_cap_example :
    (begin second_signal (course "y").selection ten first_begun.1
      ≡ (pending second_pending, both_begun))
    × ((limits_of {W = Cents} "FUKAA").max_positions_per_strategy
        < open_in "FUKAA" (
            values
              (overlap
                (course "x")
                (course "y")
                (pending_of first_begun.0)
                second_pending
                both_begun).positions))
unfolding begin place_entry Paper.fill walk_book limits_of open_in new_wallet ◌+ℤ◌ ◌-ℤ◌ ◌*ℤ◌
overlap_passes_cap_example =
    overlap_passes_cap (signal "FUKAA" "NIFTY" "a") second_signal (course "x") (course "y")
      (pending_of first_begun.0) (fill_or (fill_in first_sent.0)) (fill_or (fill_in second_sent.0))
      (stock "BANK") call_option second_purse crowded first_begun.1 refl second_signal-IsAffordable
      refl refl refl refl refl refl refl

-- From no positions, one signal.
abbrev quiet : Engine Cents
quiet = engine "FUKAA" []

quiet-IsNamed : IsNamed quiet
quiet-IsNamed s u h = elim (Bool-cases (str_eq s "NIFTY")) [
  | inl n ↦
      let q : some (stock "NIFTY") ≡ some u = rw n at h in
      ap (λ v. v.symbol) (sym (some-injective _ _ q)) ∙ sym ((str_eq_iff s "NIFTY").0 n)
  | inr n ↦ elim (Bool-cases (str_eq s "BANK")) [
    | inl b ↦
        let q : some (stock "BANK") ≡ some u = rw (n, b) at h in
        ap (λ v. v.symbol) (sym (some-injective _ _ q)) ∙ sym ((str_eq_iff s "BANK").0 b)
    | inr b ↦ let q : none ≡ some u = rw (n, b) at h in cc
  ]
]

nothing-IsWithinCaps : IsWithinCaps {W = Cents} []
unfolding open_in same_in
nothing-IsWithinCaps = record { books = λ s. ground arith; names = λ s symbol. ground arith }

abbrev after_signal : Engine Cents
after_signal = (handle_signal (signal "FUKAA" "NIFTY" "a") (course "x") quiet).1

one_signal : EngineRun quiet after_signal
one_signal =
    more quiet after_signal after_signal
      (signal_step quiet (signal "FUKAA" "NIFTY" "a") (course "x") refl) (done after_signal)

caps_hold_example : IsWithinCaps (values after_signal.positions)
caps_hold_example = caps_hold quiet after_signal one_signal quiet-IsNamed nothing-IsWithinCaps

-- The signal became a position.
entered_test : open_in "FUKAA" (values after_signal.positions) ≡ 1
unfolding handle_signal begin settle place_entry open_position Paper.fill walk_book open_in
    new_wallet ◌+ℤ◌ ◌-ℤ◌ ◌*ℤ◌
entered_test = refl

-- A halted engine that holds one position, whose last quote is two minutes old.
abbrev held_back : Engine Cents
held_back = record (engine "FUDKII" (("p", position) ∷ [])) {
  control = record { mode = paper; armed_until = none; halted = true; row = paper_row };
}

abbrev purse : String → Wallet Cents
purse strategy = new_wallet strategy (pos 100_000_000) ten

abbrev stale_position : Position Cents
stale_position =
    (evaluated position (pos 10_000) (purse "FUDKII") (ten + 120 * second) none held_back).1

abbrev stale_reply : ExitDecision Cents → Reply Cents × Engine Cents
stale_reply d =
    handed_over position (pos 10_000) (purse "FUDKII") (ten + 120 * second) none held_back d

forced_exit_sent_example :
    (d : ExitDecision Cents) × (0 < d.qty)
    × (d.qty ≤ 100)
    × IsExitOrder position d (exit_intent stale_position d)
    × (manage_position position (ten + 120 * second) none held_back
        ≡ finish_exit stale_position d (ten + 120 * second) (stale_reply d).0 (stale_reply d).1)
unfolding limits_of effective_mode past_force_flat is_halted new_wallet ◌+ℤ◌ ◌-ℤ◌ ◌*ℤ◌
forced_exit_sent_example =
    forced_exit_sent position (pos 10_000) (purse "FUDKII") (ten + 120 * second) none held_back refl
      (omega arith) refl refl refl refl refl

-- The purse of the first book that mirrors FUDKII.
abbrev mirroring : Engine Cents
mirroring = engine "FUDKII_RT_X" []

abbrev ids : String → String
ids key = concat "twin" key

abbrev twin : Position Cents → Position Cents
twin p = twin_of (course "x").ladder "twinFUDKII_RT_X" "FUDKII_RT_X" p

-- The primary was sold before its twin was made.
abbrev sold_position : Position Cents
sold_position = record position { status = closed; qty_remaining = 0 }

closed_twin_stays_example :
    (lookup "t"
        (mirror_one
          (course "x").ladder
          []
          "t"
          "FUDKII_RT_X"
          sold_position
          live_fill
          mirroring).positions
      ≡ some (twin_of (course "x").ladder "t" "FUDKII_RT_X" sold_position))
    × (lookup "FUDKII_RT_X"
          (mirror_one
            (course "x").ladder
            []
            "t"
            "FUDKII_RT_X"
            sold_position
            live_fill
            mirroring).wallets
        ≡ some (pay_twin sold_position live_fill (purse "FUDKII_RT_X")))
    × ((pay_twin sold_position live_fill (purse "FUDKII_RT_X")).deployed
        ≡ (purse "FUDKII_RT_X").deployed ⊕ twin_cost sold_position)
    × ((now : Time) (place : Option (Placement Cents)) (g : Engine Cents)
        → manage_position (twin_of (course "x").ladder "t" "FUDKII_RT_X" sold_position) now place g
          ≡ g)
unfolding skip_twin new_wallet ◌+ℤ◌ ◌-ℤ◌ ◌*ℤ◌
closed_twin_stays_example =
    closed_twin_stays (course "x").ladder [] "t" "FUDKII_RT_X" sold_position live_fill
      (purse "FUDKII_RT_X") mirroring refl refl refl
