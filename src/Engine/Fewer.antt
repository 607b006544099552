-- ===== src/Engine/Fewer.antt =====
-- Changes of the engine after which no book and no name has more positions than before.
use kotsin_nse.Prelude.{◌≡◌, ◌≤◌, ap, ◌∙◌, String, Bool, some, arith}
use kotsin_nse.Prelude.Dict.{lookup, insert, remove, values}
use kotsin_nse.Prelude.Counts.{count, count-insert_same, count-remove}
use kotsin_nse.Num.{Num}
use kotsin_nse.Domain.{Position}
use kotsin_nse.Engine.State.{Engine}
use kotsin_nse.Engine.Offer.{SameHoldings}
use kotsin_nse.Engine.Caps.{IsLike, IsPlain}

module _ {W : Type 0} ⦃f : Num W⦄ where
  -- What an exit step does: it keeps the universe, and no more positions of a book or of a name.
  abbrev pub IsFewer : Engine W → Engine W → Type 0
  IsFewer e g =
      (g.underlyings ≡ e.underlyings)
      × ((t : Position W → Bool)
          → IsPlain t
          → count t (values g.positions) ≤ count t (values e.positions))

  pub same-IsFewer : (e g : Engine W) → SameHoldings e g → IsFewer e g
  same-IsFewer e g h = (h.1, λ t plain. ground (arith, ap (λ d. count t (values d)) h.0))

  pub IsFewer-trans : (e g h : Engine W) → IsFewer e g → IsFewer g h → IsFewer e h
  IsFewer-trans e g h a b = (b.0 ∙ a.0, λ t plain. omega (arith, a.1 t plain, b.1 t plain))

  pub removed-IsFewer :
      (k : String) (e g : Engine W)
      → SameHoldings (record e { positions = remove k e.positions }) g
      → IsFewer e g
  removed-IsFewer k e g h = (
    h.1,
    λ t plain. ground (arith, ap (λ d. count t (values d)) h.0, count-remove t k e.positions),
  )

  -- A change that leaves the books and the names of the positions as they are.
  pub changed-IsFewer :
      (e g : Engine W) (p q : Position W)
      → lookup p.id e.positions ≡ some p
      → IsLike p q
      → SameHoldings (record e { positions = insert p.id q e.positions }) g
      → IsFewer e g
  changed-IsFewer e g p q at like h = (
    h.1,
    λ t plain. ground (arith, h.0, count-insert_same t p.id q p e.positions at (plain p q like)),
  )
