-- ===== src/Ops/Telegram.antt =====
-- backend/kotsin_nse/ops/telegram.py: `send` with its cooldown. Each call is given the two readings of
-- the clock that it makes and what the post came to; the text and the client are left out.
pub mod Cooldown
use kotsin_nse.Prelude.{
  ℕ, ◌+◌, String, Bool, true, false, not, ◌&&◌, ◌||◌, Option, none, some, List, [], ◌∷◌, ltb,
  if◌then◌else◌,
}
use kotsin_nse.Prelude.Dict.{Dict, lookup, insert}
use kotsin_nse.Prelude.Strings.{str_eq}
use kotsin_nse.Domain.{Time}

-- The reply of `client.post`: a status of 200, another one, or an exception.
pub data Posted : Type 0 where
  accepted declined threw : Posted

pub record Telegram : Type 0 where
  pub enabled : Bool
  pub cooldown : ℕ
  pub last_sent : Dict Time
  pub sent : ℕ
  pub suppressed : ℕ
  pub failed : ℕ

-- A call: its key, whether it is forced, and what happens outside.
pub record Message : Type 0 where
  pub key : Option String
  pub force : Bool
  pub asked_at : Time
  pub noted_at : Time
  pub posted : Posted

abbrev pub is_empty_text : String → Bool
is_empty_text k = str_eq k ""

-- Counting the reply: what `send` returns, and the new state.
unfoldable pub count_reply : Posted → Telegram → Bool × Telegram
count_reply accepted t = (true, record t { sent = t.sent + 1 })
count_reply declined t = (false, record t { failed = t.failed + 1 })
count_reply threw t = (false, record t { failed = t.failed + 1 })

-- `self._last.get(key, 0.0)`
unfoldable pub last_of : String → Telegram → Time
last_of key t = elim (lookup key t.last_sent) [ none ↦ 0 | some ts ↦ ts ]

-- A message with a key that is not forced.
unfoldable pub send_keyed : String → Message → Telegram → Bool × Telegram
unfolding last_of count_reply
send_keyed key m t =
    if ltb m.asked_at (last_of key t + t.cooldown)
    then (false, record t { suppressed = t.suppressed + 1 })
    else count_reply m.posted (record t { last_sent = insert key m.noted_at t.last_sent })

unfoldable pub send_by : Option String → Message → Telegram → Bool × Telegram
unfolding send_keyed count_reply
send_by none m t = count_reply m.posted t
send_by (some key) m t =
    if is_empty_text key || m.force then count_reply m.posted t else send_keyed key m t

-- `send`
unfoldable pub send : Message → Telegram → Bool × Telegram
unfolding send_by
send m t = if t.enabled then send_by m.key m t else (false, t)
