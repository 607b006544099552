-- ===== src/Engine/Control/Restarts.antt =====
-- The mode and the halt in force, over any calls and restarts.
use kotsin_nse.Prelude.{
  ◌≤◌, ◌≡◌, Bool, true, not, ◌&&◌, Option, none, some, List, [], ◌∷◌, All, arith, if◌then◌else◌,
  refl,
}
use kotsin_nse.Domain.{Time}
use kotsin_nse.Exec.Gateway.{Mode, paper, is_live_mode}
use kotsin_nse.Engine.Control.{
  Control, ControlRow, Call, choose_mode, choose_halt, restart, expired, is_missing, armed_for,
  load_control, effective_mode, set_mode, set_halt, act, act_all,
}

abbrev pub time_of : Call → Time
time_of (choose_mode now mode minutes) = now
time_of (choose_halt now b) = now
time_of (restart now) = now

-- The mode a call asks for and the end of its arming, if the call is valid.
unfoldable pub asked : Call → Option (Mode × Option Time)
asked (choose_mode now mode none) = if is_live_mode mode then none else some (mode, none)
asked (choose_mode now mode (some m)) =
    if not (is_live_mode mode)
    then some (mode, none)
    else if is_missing (some m)
    then none
    else some (mode, some (armed_for now m))
asked _ = none

-- What the last valid call asked for, or else what stood before.
unfoldable pub last_asked : List Call → Mode × Option Time → Mode × Option Time
unfolding asked
last_asked [] d = d
last_asked (x ∷ xs) d = last_asked xs (elim (asked x) [ none ↦ d | some e ↦ e ])

abbrev halt_after : Call → Bool → Bool
halt_after (choose_halt now h) b = h
halt_after _ b = b

unfoldable pub last_halt : List Call → Bool → Bool
last_halt [] b = b
last_halt (x ∷ xs) b = last_halt xs (halt_after x b)

-- A live mode counts until its arming ends, and as paper after that.
unfoldable pub in_force : Time → Mode × Option Time → Mode
in_force t (mode, armed) = if is_live_mode mode && expired armed t then paper else mode

-- At the time `t` the engine and its row have the mode and the halt that were asked for.
abbrev IsAsAsked : Time → Mode × Option Time → Bool → Control → Type 0
IsAsAsked t d h c =
    (in_force t (c.mode, c.armed_until) ≡ in_force t d)
    × (in_force t (c.row.mode, c.row.armed_until) ≡ in_force t d)
    × (c.halted ≡ h)
    × (c.row.halted ≡ h)

expired_later :
    (a : Option Time) (now t : Time) → now ≤ t → expired a now ≡ true → expired a t ≡ true
expired_later none now t l e = e
expired_later (some u) now t l e = ground arith

load_control-IsAsAsked :
    (t now : Time) (d : Mode × Option Time) (h : Bool) (r : ControlRow)
    → now ≤ t
    → in_force t (r.mode, r.armed_until) ≡ in_force t d
    → r.halted ≡ h
    → IsAsAsked t d h (load_control now r)
unfolding load_control in_force
load_control-IsAsAsked t now d h r l s k = ground (arith, expired_later r.armed_until now t l)

act-IsAsAsked :
    (t : Time) (x : Call) (d : Mode × Option Time) (h : Bool) (c : Control)
    → time_of x ≤ t
    → IsAsAsked t d h c
    → IsAsAsked t (elim (asked x) [ none ↦ d | some e ↦ e ]) (halt_after x h) (act x c)
unfolding act asked set_halt set_mode
act-IsAsAsked t (restart now) d h c l i = load_control-IsAsAsked t now d h c.row l i.1 i.3
act-IsAsAsked t (choose_halt now b) d h c l i = ground arith
act-IsAsAsked t (choose_mode now m none) d h c l i = ground arith
act-IsAsAsked t (choose_mode now m (some k)) d h c l i = ground arith

act_all-IsAsAsked :
    (t : Time) (xs : List Call) (d : Mode × Option Time) (h : Bool) (c : Control)
    → All (λ x. time_of x ≤ t) xs
    → IsAsAsked t d h c
    → IsAsAsked t (last_asked xs d) (last_halt xs h) (act_all xs c)
unfolding act_all last_asked last_halt
act_all-IsAsAsked t [] d h c l i = i
act_all-IsAsAsked t (x ∷ xs) d h c l i =
    act_all-IsAsAsked t xs _ (halt_after x h) (act x c) l.1 (act-IsAsAsked t x d h c l.0 i)

-- After an engine has booted from its row, and after any valid or refused calls and restarts up to the
-- time `t`, the mode in force at `t` is the one that the last valid `set_mode` asked for, or else the
-- row's, with a live mode counting as paper once its arming has ended; and the manual halt is the last
-- one set, or else the row's. No restart changes either.
pub mode_as_asked :
    (t now : Time) (r : ControlRow) (xs : List Call)
    → now ≤ t
    → All (λ x. time_of x ≤ t) xs
    → (effective_mode t (act_all xs (load_control now r))
        ≡ in_force t (last_asked xs (r.mode, r.armed_until)))
      × ((act_all xs (load_control now r)).halted ≡ last_halt xs r.halted)
unfolding effective_mode in_force
mode_as_asked t now r xs b l =
    let boot = load_control-IsAsAsked t now (r.mode, r.armed_until) r.halted r b refl refl in
    let i = act_all-IsAsAsked t xs (r.mode, r.armed_until) r.halted (load_control now r) l boot in
    (i.0, i.2)
