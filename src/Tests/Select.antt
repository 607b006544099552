-- ===== src/Tests/Select.antt =====
-- The choice of a contract at a concrete chain.
use kotsin_nse.Prelude.{◌≡◌, ◌⊎◌, refl, none, some, List, [], ◌∷◌, All}
use kotsin_nse.Prelude.Int.{pos, ◌+ℤ◌, ◌-ℤ◌, ◌*ℤ◌}
use kotsin_nse.Prelude.Dict.{Dict}
use kotsin_nse.Num.Cents.{Cents, cents_num}
use kotsin_nse.Domain.{Instrument, bullish, ce}
use kotsin_nse.Instrument.Quote.{Quote, default_policy}
use kotsin_nse.Instrument.Choice.{Selection, select_option, tradeable, open_pool}
use kotsin_nse.Instrument.Choice.Exact.{IsEligible, select_option_exact}
use kotsin_nse.Instrument.Choice.Offer.{IsOffer}
use kotsin_nse.Tests.Data.{call_option, ten}

-- A call at 25,000 with a one-sided quote and one at 25,100 with a tight one.
abbrev further : Instrument Cents
further = record call_option { scrip_code = "43"; strike = pos 2_510_000 }

abbrev quotes : Dict (Quote Cents)
quotes =
    ("42", record { ltp = pos 10_000; bid = pos 0; ask = pos 10_100; ts = ten })
    ∷ ("43", record { ltp = pos 6_000; bid = pos 5_900; ask = pos 6_100; ts = ten })
    ∷ []

abbrev chain : List (Instrument Cents)
chain = call_option ∷ further ∷ []

abbrev choice : Selection Cents
choice = select_option chain quotes (pos 2_490_000) none bullish ten default_policy (pos 0) none

-- The loop goes past the one-sided quote.
choice-further : choice.instrument ≡ some further
unfolding select_option ◌+ℤ◌ ◌-ℤ◌ ◌*ℤ◌
choice-further = refl

select_option_exact_example :
    ((choice.instrument ≡ none)
      × All
          (λ i. tradeable default_policy ten quotes i.scrip_code ≡ none)
          (open_pool ce (pos 2_490_000) chain))
    ⊎ ((i : Instrument Cents) × (spread : Cents) × (choice.instrument ≡ some i)
        × (choice.spread ≡ some spread)
        × IsEligible ce (pos 2_490_000) chain i
        × IsOffer default_policy ten quotes i.scrip_code choice.premium spread)
select_option_exact_example =
    select_option_exact chain quotes (pos 2_490_000) none bullish ten default_policy (pos 0) none
