-- ===== src/Tests/Bus.antt =====
-- Subscriptions at concrete events.
use kotsin_nse.Prelude.{ℕ, ◌≡◌, refl, none, List, [], ◌∷◌}
use kotsin_nse.Bus.{tick, subscribe, offer, consume}
use kotsin_nse.Bus.Conservation.{Event, offered, taken, run, start, IsFifo, subscription_conserves}

-- Four events at a queue of two.
abbrev events : List (Event ℕ)
events = offered 1 ∷ offered 2 ∷ offered 3 ∷ taken ∷ offered 4 ∷ []

-- The oldest tick is dropped.
ticks-dropped : (run events (start (subscribe tick 2 none))).sub.dropped ≡ 1
unfolding run subscribe offer consume
ticks-dropped = refl

subscription_conserves_example : IsFifo (run events (start (subscribe tick 2 none)))
subscription_conserves_example = subscription_conserves tick 2 none events
