-- ===== src/Exec/Gateway/Exits.antt =====
-- A halt stops entries; exits pass every gate but the duplicate test.
use kotsin_nse.Prelude.{◌≡◌, refl, true, false, Option, none, some, List, ◌∷◌, String, arith}
use kotsin_nse.Prelude.Strings.{member, str_eq_refl}
use kotsin_nse.Num.{Num}
use kotsin_nse.Domain.{OrderIntent, Fill, entry, exit}
use kotsin_nse.Exec.Paper
use kotsin_nse.Exec.Paper.{Matcher, Filled, filled}
use kotsin_nse.Exec.Gateway.{
  LiveContext, LiveResult, Gateway, Inputs, Placement, returned, raised, submit, submit_live,
  paper_filled, is_live_mode, breaks_cap, paper, live_capped, rollover,
}
use kotsin_nse.Exec.Gateway.Calls.{live_placed, is_placed}

-- The caps do not read the seen ids.
breaks_cap-seen :
    {W : Type 0} ⦃f : Num W⦄ (intent : OrderIntent W) (ctx : LiveContext W) (ltp : Option W)
    (g : Gateway W) (ids : List String)
    → breaks_cap intent ctx ltp (record g { seen = ids }) ≡ breaks_cap intent ctx ltp g
unfolding breaks_cap
breaks_cap-seen intent ctx ltp g ids = refl

module _ {W : Type 0} ⦃f : Num W⦄ (intent : OrderIntent W) (i : Inputs W) (g : Gateway W) where
  halted_live_entry :
      (ctx : LiveContext W) (place : Option (Placement W))
      → intent.purpose ≡ entry
      → i.halted ≡ true
      → live_placed intent.client_order_id intent i.mode place (submit_live intent ctx i place g).0
        ≡ 0
  unfolding submit_live
  halted_live_entry ctx none e h = ground arith
  halted_live_entry ctx (some place) e h = ground arith

  -- While the engine is halted no entry goes out: not from `submit`, whatever the mode, and not from
  -- `submit_live`, whatever the broker and the caps say.
  pub halted_entry_stops :
      (ctx : LiveContext W) (place : Option (Placement W))
      → intent.purpose ≡ entry
      → i.halted ≡ true
      → (is_placed (submit intent i g).0.decision ≡ false)
        × (live_placed intent.client_order_id intent i.mode place
              (submit_live intent ctx i place g).0
            ≡ 0)
  unfolding submit
  halted_entry_stops ctx place e h = ground (arith, halted_live_entry ctx place e h)

  -- A paper exit under a new id is filled whenever the matcher fills it, halted or not.
  pub paper_exit_passes :
      (x : Fill W) (m : Matcher W)
      → intent.purpose ≡ exit
      → i.mode ≡ paper
      → member intent.client_order_id g.seen ≡ false
      → Paper.fill g.matcher intent i.book i.ltp i.now ≡ (filled x, m)
      → ((submit intent i g).0.decision ≡ paper_filled) × ((submit intent i g).0.fill ≡ some x)
  unfolding submit
  paper_exit_passes x m e p new fills = ground arith

  -- A live exit under a new id goes out whenever the broker fills it: the halt, the circuit
  -- breaker, the caps and the exposure verdict have no say.
  pub live_exit_passes :
      (ctx : LiveContext W) (res : LiveResult W) (x : Fill W)
      → intent.purpose ≡ exit
      → is_live_mode i.mode ≡ true
      → member intent.client_order_id g.seen ≡ false
      → res.ok ≡ true
      → res.fill ≡ some x
      → live_placed intent.client_order_id intent i.mode
          (some (returned res))
          (submit_live intent ctx i (some (returned res)) g).0
        ≡ 1
  unfolding submit_live breaks_cap
  live_exit_passes ctx res x e p new good fills = ground (arith, str_eq_refl intent.client_order_id)

  -- In the capped mode an entry goes out only if it broke no cap, and not while halted.
  pub capped_entry_respects_caps :
      (ctx : LiveContext W) (place : Option (Placement W))
      → intent.purpose ≡ entry
      → i.mode ≡ live_capped
      → live_placed intent.client_order_id intent i.mode place (submit_live intent ctx i place g).0
        ≡ 1
      → (i.halted ≡ false) × (breaks_cap intent ctx i.ltp (rollover i.now g) ≡ false)
  unfolding submit_live
  capped_entry_respects_caps ctx none e p h = ground arith
  capped_entry_respects_caps ctx (some raised) e p h =
      let g' = rollover i.now g in
      ground (arith, breaks_cap-seen intent ctx i.ltp g' (intent.client_order_id ∷ g'.seen))
  capped_entry_respects_caps ctx (some (returned res)) e p h =
      let g' = rollover i.now g in
      ground (arith, breaks_cap-seen intent ctx i.ltp g' (intent.client_order_id ∷ g'.seen))
