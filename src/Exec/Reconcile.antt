-- ===== src/Exec/Reconcile.antt =====
-- backend/kotsin_nse/exec/reconcile.py: the broker's net positions against the local book. The reply
-- of `net_positions` is a parameter; `none` is a `VenueError`. Notes and timestamps are left out.
pub mod Agreement
use kotsin_nse.Prelude.{
  ℕ, ◌+◌, String, Bool, true, false, not, ◌&&◌, Option, none, some, List, [], ◌∷◌, ◌++◌, length,
  ◌==◌, if◌then◌else◌,
}
use kotsin_nse.Prelude.Int.{ℤ, nat_abs, is_zero}
use kotsin_nse.Prelude.Dict.{Dict, lookup, insert}
use kotsin_nse.Domain.{Position, Instrument, is_opened}

pub data MismatchKind : Type 0 where
  orphan phantom qty_mismatch : MismatchKind

pub record Mismatch : Type 0 where
  pub kind : MismatchKind
  pub scrip_code : String
  pub symbol : String
  pub local_qty : ℕ
  pub venue_qty : ℕ

-- A row of `net_positions`.
pub record VenueRow : Type 0 where
  pub scrip_code : String
  pub symbol : String
  pub net_qty : ℤ

pub record Report : Type 0 where
  pub checked : ℕ
  pub mismatches : List Mismatch
  pub error : Bool

pub record Reconciler : Type 0 where
  pub last : Report
  pub frozen : Bool

-- `{r["scrip_code"]: r for r in rows if r["net_qty"] != 0}`: a later row replaces an earlier one.
venue_from : Dict VenueRow → List VenueRow → Dict VenueRow
venue_from d [] = d
venue_from d (r ∷ rows) = venue_from (if is_zero r.net_qty then d else insert r.scrip_code r d) rows

unfoldable pub venue_of : List VenueRow → Dict VenueRow
unfolding venue_from
venue_of = venue_from []

-- A loop that appends to the report's list.
over {ℓ} : {A : Type ℓ} → (A → List Mismatch) → List A → List Mismatch
over check [] = []
over check (x ∷ xs) = check x ++ over check xs

abbrev any : List Mismatch → Bool
any [] = false
any (m ∷ ms) = true

module _ {W : Type 0} where
  abbrev is_held : Position W → Bool
  is_held p = is_opened p.status && not (p.qty_remaining == 0)

  -- The open positions by scrip code; of two in one contract the later one stays.
  local_from : Dict (Position W) → List (Position W) → Dict (Position W)
  local_from d [] = d
  local_from d (p ∷ ps) =
      local_from (if is_held p then insert p.instrument.scrip_code p d else d) ps

  unfoldable pub local_of : List (Position W) → Bool → Dict (Position W)
  unfolding local_from
  local_of ps at_venue = if at_venue then local_from [] ps else []

  -- The first loop, on one row of the broker.
  venue_check : Dict (Position W) → String × VenueRow → List Mismatch
  venue_check local (code, row) =
      let vq = nat_abs row.net_qty in
      elim (lookup code local) [
        | none ↦
            record {
              kind = orphan;
              scrip_code = code;
              symbol = row.symbol;
              local_qty = 0;
              venue_qty = vq;
            }
            ∷ []
        | some p ↦
            if p.qty_remaining == vq
            then []
            else record {
              kind = qty_mismatch;
              scrip_code = code;
              symbol = p.instrument.symbol;
              local_qty = p.qty_remaining;
              venue_qty = vq;
            }
              ∷ []
      ]

  -- The second loop, on one local position.
  local_check : Dict VenueRow → String × Position W → List Mismatch
  local_check venue (code, p) = elim (lookup code venue) [
    | none ↦
        record {
          kind = phantom;
          scrip_code = code;
          symbol = p.instrument.symbol;
          local_qty = p.qty_remaining;
          venue_qty = 0;
        }
        ∷ []
    | some row ↦ []
  ]

  unfoldable pub mismatches_of : Dict VenueRow → Dict (Position W) → List Mismatch
  unfolding over venue_check local_check
  mismatches_of venue local = over (venue_check local) venue ++ over (local_check venue) local

  -- `run`
  unfoldable pub run :
      Option (List VenueRow) → List (Position W) → Bool → Reconciler → Report × Reconciler
  unfolding venue_of local_of mismatches_of
  run none positions at_venue r =
      let report : Report = record { checked = 0; mismatches = []; error = true } in
      (report, record { last = report; frozen = true })
  run (some rows) positions at_venue r =
      let venue = venue_of rows in
      let local = local_of positions at_venue in
      let ms = mismatches_of venue local in
      let report : Report = record {
        checked = length venue + length local;
        mismatches = ms;
        error = false;
      } in
      (report, record { last = report; frozen = any ms })

-- `acknowledge`
unfoldable pub acknowledge : Reconciler → Reconciler
acknowledge r = record r { frozen = false }
