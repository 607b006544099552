-- ===== src/Ops/Telegram/Cooldown.antt =====
-- One alert of a key for each cooldown.
use kotsin_nse.Prelude.{
  ℕ, ◌+◌, ◌≤◌, ◌<◌, ◌≡◌, refl, ◌∙◌, String, Bool, true, false, Bool-cases, if-elim, inl, inr,
  Option, none, some, List, [], ◌∷◌, All, arith, ltb, lt→ltb, ◌||◌,
}
use kotsin_nse.Prelude.Dict.{insert, lookup-insert}
use kotsin_nse.Prelude.Strings.{str_eq_refl}
use kotsin_nse.Domain.{Time}
use kotsin_nse.Ops.Telegram.{
  Telegram, Message, Posted, accepted, declined, threw, count_reply, last_of, send_keyed, send_by,
  send, is_empty_text,
}

-- Messages one after the other.
unfoldable pub send_all : List Message → Telegram → Telegram
unfolding send
send_all [] t = t
send_all (m ∷ ms) t = send_all ms (send m t).1

-- What later messages keep: the settings, and that the key was sent no earlier than `since`.
record IsHeld (key : String) (since : Time) (cooldown : ℕ) (t : Telegram) : Type 0 where
  on : t.enabled ≡ true
  same : t.cooldown ≡ cooldown
  later : since ≤ last_of key t

module _ (key : String) (since : Time) (cooldown : ℕ) where
  count_reply-IsHeld :
      (p : Posted) (t : Telegram)
      → IsHeld key since cooldown t
      → IsHeld key since cooldown (count_reply p t).1
  unfolding count_reply last_of
  count_reply-IsHeld accepted t h = ground arith
  count_reply-IsHeld declined t h = ground arith
  count_reply-IsHeld threw t h = ground arith

  last_of-insert :
      (k : String) (now : Time) (t : Telegram)
      → since ≤ now
      → since ≤ last_of key t
      → since ≤ last_of key (record t { last_sent = insert k now t.last_sent })
  unfolding last_of
  last_of-insert k now t h l = ground (arith, lookup-insert k key now t.last_sent)

  send_keyed-IsHeld :
      (k : String) (m : Message) (t : Telegram)
      → since ≤ m.noted_at
      → IsHeld key since cooldown t
      → IsHeld key since cooldown (send_keyed k m t).1
  unfolding send_keyed last_of
  send_keyed-IsHeld k m t s h = elim (Bool-cases (ltb m.asked_at (last_of k t + t.cooldown))) [
    | inl e ↦ rw (e, send_keyed) (record { on = h.on; same = h.same; later = h.later })
    | inr e ↦
        let noted = record t { last_sent = insert k m.noted_at t.last_sent } in
        rw (e, send_keyed)
          (count_reply-IsHeld m.posted noted
            (record { on = h.on; same = h.same; later = last_of-insert k m.noted_at t s h.later }))
  ]

  send-IsHeld :
      (m : Message) (t : Telegram)
      → since ≤ m.noted_at
      → IsHeld key since cooldown t
      → IsHeld key since cooldown (send m t).1
  unfolding send send_by
  send-IsHeld m t s h =
      if-elim (λ (r : Bool × Telegram). IsHeld key since cooldown r.1) t.enabled (by_key m.key) h
    where
      by_key : (k : Option String) → IsHeld key since cooldown (send_by k m t).1
      by_key none = count_reply-IsHeld m.posted t h
      by_key (some k) = elim (Bool-cases (is_empty_text k || m.force)) [
        | inl e ↦ rw e (count_reply-IsHeld m.posted t h)
        | inr e ↦ rw e (send_keyed-IsHeld k m t s h)
      ]

  send_all-IsHeld :
      (ms : List Message) (t : Telegram)
      → All (λ m. since ≤ m.noted_at) ms
      → IsHeld key since cooldown t
      → IsHeld key since cooldown (send_all ms t)
  unfolding send_all
  send_all-IsHeld [] t a h = h
  send_all-IsHeld (m ∷ ms) t a h = send_all-IsHeld ms (send m t).1 a.1 (send-IsHeld m t a.0 h)

-- A message that is held to the cooldown of a key: it has the key and is not forced.
pub record IsKeyed (key : String) (m : Message) : Type 0 where
  pub keyed : m.key ≡ some key
  pub named : is_empty_text key ≡ false
  pub unforced : m.force ≡ false

send-keyed :
    (key : String) (m : Message) (t : Telegram)
    → t.enabled ≡ true
    → IsKeyed key m
    → send m t ≡ send_keyed key m t
unfolding send send_by
send-keyed key m t on k = ground (arith, on, k.keyed, k.named, k.unforced)

send_keyed-passed :
    (key : String) (m : Message) (t : Telegram)
    → t.enabled ≡ true
    → ltb m.asked_at (last_of key t + t.cooldown) ≡ false
    → IsHeld key m.noted_at t.cooldown (send_keyed key m t).1
unfolding send_keyed last_of
send_keyed-passed key m t on e =
    let noted = record t { last_sent = insert key m.noted_at t.last_sent } in
    let there : m.noted_at ≤ last_of key noted =
      ground (arith, lookup-insert key key m.noted_at t.last_sent, str_eq_refl key) in
    rw (e, send_keyed)
      (count_reply-IsHeld key m.noted_at t.cooldown m.posted noted
        (record { on = on; same = refl; later = there }))

send_keyed-stopped :
    (key : String) (m : Message) (t : Telegram)
    → m.asked_at < last_of key t + t.cooldown
    → send_keyed key m t ≡ (false, record t { suppressed = t.suppressed + 1 })
unfolding send_keyed
send_keyed-stopped key m t h = rw (lt→ltb _ _ h, send_keyed) refl

-- After a message of a key has gone to the channel, whatever that came to, every other unforced message
-- of the key is held back and counted until the cooldown has passed, whatever is sent between, as
-- long as no reading of the clock between is before that message's own.
pub alert_cooldown :
    (key : String) (first again : Message) (between : List Message) (t : Telegram)
    → t.enabled ≡ true
    → IsKeyed key first
    → IsKeyed key again
    → ltb first.asked_at (last_of key t + t.cooldown) ≡ false
    → All (λ m. first.noted_at ≤ m.noted_at) between
    → again.asked_at < first.noted_at + t.cooldown
    → let t' = send_all between (send first t).1 in
      send again t' ≡ (false, record t' { suppressed = t'.suppressed + 1 })
alert_cooldown key first again between t on k k' passed ordered soon =
    let sent = send-keyed key first t on k in
    let begun = send_keyed-passed key first t on passed in
    let held : IsHeld key first.noted_at t.cooldown (send first t).1 = rw sent begun in
    let t' = send_all between (send first t).1 in
    let later =
      send_all-IsHeld key first.noted_at t.cooldown between (send first t).1 ordered held in
    send-keyed key again t' later.on k'
    ∙ send_keyed-stopped key again t' (omega (arith, later.same, later.later))
