-- ===== src/Engine/Control.antt =====
-- The operating mode and the manual halt (`_load_control`, `mode`, `halted`, `set_mode` and `set_halt`
-- of backend/kotsin_nse/engine.py), with the control row of backend/kotsin_nse/ledger/db.py. A call
-- writes the row before the next call starts; the reason of a halt is left out.
pub mod Restarts
use kotsin_nse.Prelude.{
  ℕ, ◌+◌, ◌-◌, ◌*◌, zero, suc, Bool, true, false, not, ◌&&◌, ◌||◌, Option, none, some, List, [],
  ◌∷◌, ltb, if◌then◌else◌,
}
use kotsin_nse.Prelude.Int.{ℤ, pos, negsuc}
use kotsin_nse.Domain.{Time}
use kotsin_nse.Market.Session.{minute}
use kotsin_nse.Exec.Gateway.{Mode, paper, is_live_mode}

-- A row of the table `control`.
pub record ControlRow : Type 0 where
  pub mode : Mode
  pub armed_until : Option Time
  pub halted : Bool

-- `_mode`, `_armed_until` and `_halted`, and the row in the database.
pub record Control : Type 0 where
  pub mode : Mode
  pub armed_until : Option Time
  pub halted : Bool
  pub row : ControlRow

-- `armed_until is None or armed_until < time.time()`
abbrev pub expired : Option Time → Time → Bool
expired none now = true
expired (some until) now = ltb until now

-- `_load_control`
unfoldable pub load_control : Time → ControlRow → Control
load_control now row =
    if is_live_mode row.mode && expired row.armed_until now
    then record {
      mode = paper;
      armed_until = row.armed_until;
      halted = row.halted;
      row = record row { mode = paper; armed_until = none };
    }
    else record { mode = row.mode; armed_until = row.armed_until; halted = row.halted; row = row }

-- `mode`
unfoldable pub effective_mode : Time → Control → Mode
effective_mode now c = if is_live_mode c.mode && expired c.armed_until now then paper else c.mode

-- `halted`: by hand, by the frozen reconciler or by the gateway's breaker.
unfoldable pub halted : Control → Bool → Bool → Bool
halted c frozen breaker_tripped = c.halted || frozen || breaker_tripped

-- `time.time() + armed_minutes * 60`; an instant before the epoch counts as the epoch.
unfoldable pub armed_for : Time → ℤ → Time
armed_for now (pos m) = now + m * minute
armed_for now (negsuc m) = now - suc m * minute

-- `not armed_minutes`
abbrev pub is_missing : Option ℤ → Bool
is_missing none = true
is_missing (some (pos zero)) = true
is_missing _ = false

abbrev write_mode : Mode → Option Time → Control → Control
write_mode mode armed c = record c {
  mode = mode;
  armed_until = armed;
  row = record c.row { mode = mode; armed_until = armed };
}

-- `set_mode`; none is its ValueError.
unfoldable pub set_mode : Time → Mode → Option ℤ → Control → Option Control
unfolding armed_for
set_mode now mode minutes c =
    if is_live_mode mode
    then elim minutes [
      | none ↦ none
      | some m ↦
          if is_missing (some m) then none else some (write_mode mode (some (armed_for now m)) c)
    ]
    else some (write_mode mode none c)

-- `set_halt`
unfoldable pub set_halt : Bool → Control → Control
set_halt b c = record c { halted = b; row = record c.row { halted = b } }

-- What the operator or the supervisor of the process does.
pub data Call : Type 0 where
  choose_mode : Time → Mode → Option ℤ → Call
  choose_halt : Time → Bool → Call
  restart : Time → Call

abbrev or_same : Option Control → Control → Control
or_same none c = c
or_same (some c) _ = c

unfoldable pub act : Call → Control → Control
unfolding load_control set_mode set_halt
act (choose_mode now mode minutes) c = or_same (set_mode now mode minutes c) c
act (choose_halt now b) c = set_halt b c
act (restart now) c = load_control now c.row

unfoldable pub act_all : List Call → Control → Control
unfolding act
act_all [] c = c
act_all (x ∷ xs) c = act_all xs (act x c)
