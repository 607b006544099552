-- ===== src/Bars/Pivots/Clusters.antt =====
-- The zones of `cluster_zones` are the single-linkage clusters of the levels.
use kotsin_nse.Prelude.{
  ◌≡◌, refl, ap, ◌∙◌, true, false, Bool-cases, inl, inr, some, List, [], ◌∷◌, ◌++◌, All, map, last?,
}
use mathlib.Core.List.{append_assoc}
use kotsin_nse.Num.{Num}
use kotsin_nse.Bars.Pivots.{
  PivotPoint, Zone, zone_of, is_gap, starts_anew, zones_from, live_points, cluster_zones,
}

-- A level and those that follow it.
abbrev pub Cluster : Type 0 → Type 0
Cluster W = PivotPoint W × List (PivotPoint W)

module _ {W : Type 0} ⦃f : Num W⦄ where
  abbrev pub levels_of : List (Cluster W) → List (PivotPoint W)
  levels_of [] = []
  levels_of ((p, ps) ∷ gs) = (p ∷ ps) ++ levels_of gs

  abbrev pub end_of : PivotPoint W → List (PivotPoint W) → PivotPoint W
  end_of p [] = p
  end_of p (q ∷ qs) = end_of q qs

  module _ (tol : W) where
    -- No gap between neighbours.
    abbrev pub IsLinked : PivotPoint W → List (PivotPoint W) → Type 0
    IsLinked p [] = Unit
    IsLinked p (q ∷ qs) = (is_gap tol p q ≡ false) × IsLinked q qs

    -- A gap between each cluster and the next.
    abbrev pub IsApart : PivotPoint W → List (PivotPoint W) → List (Cluster W) → Type 0
    IsApart p ps [] = Unit
    IsApart p ps ((q, qs) ∷ gs) = (is_gap tol (end_of p ps) q ≡ true) × IsApart q qs gs

    abbrev pub AllLinked : List (Cluster W) → Type 0
    AllLinked = All (λ g. IsLinked g.0 g.1)

    abbrev pub zones_of : List (Cluster W) → List (Zone W)
    zones_of = map (λ g. zone_of g.0 g.1)

    -- What the loop makes of an open bucket and the levels to come.
    record Run (p : PivotPoint W) (qs ps : List (PivotPoint W)) : Type 0 where
      pub own : List (PivotPoint W)
      pub others : List (Cluster W)
      pub zones : zones_from tol (p ∷ qs) ps ≡ zones_of ((p, own) ∷ others)
      pub whole : levels_of ((p, own) ∷ others) ≡ (p ∷ qs) ++ ps
      pub linked : AllLinked ((p, own) ∷ others)
      pub apart : IsApart p own others

    last?-last_of :
        (p : PivotPoint W) (qs : List (PivotPoint W)) → last? (p ∷ qs) ≡ some (end_of p qs)
    last?-last_of p [] = refl
    last?-last_of p (q ∷ qs) = last?-last_of q qs

    starts_anew-eq-is_gap :
        (p : PivotPoint W) (qs : List (PivotPoint W)) (r : PivotPoint W)
        → starts_anew tol (p ∷ qs) r ≡ is_gap tol (end_of p qs) r
    unfolding starts_anew
    starts_anew-eq-is_gap p qs r = rw (last?-last_of p qs, starts_anew)

    IsLinked-append :
        (p : PivotPoint W) (qs : List (PivotPoint W)) (r : PivotPoint W)
        → IsLinked p qs
        → is_gap tol (end_of p qs) r ≡ false
        → IsLinked p (qs ++ r ∷ [])
    IsLinked-append p [] r l e = (e, tt)
    IsLinked-append p (q ∷ qs) r l e = (l.0, IsLinked-append q qs r l.1 e)

    run : (p : PivotPoint W) (qs ps : List (PivotPoint W)) → IsLinked p qs → Run p qs ps
    unfolding zones_from
    run p qs [] l = record {
      own = qs;
      others = [];
      zones = refl;
      whole = refl;
      linked = (l, tt);
      apart = tt;
    }
    run p qs (r ∷ rs) l = elim (Bool-cases (is_gap tol (end_of p qs) r)) [
      | inl e ↦
          let next = run r [] rs tt in
          record {
            own = qs;
            others = (r, next.own) ∷ next.others;
            zones =
                rw (starts_anew-eq-is_gap p qs r ∙ e, zones_from)
                  (ap (λ zs. zone_of p qs ∷ zs) next.zones);
            whole = ap (λ ps. (p ∷ qs) ++ ps) next.whole;
            linked = (l, next.linked);
            apart = (e, next.apart);
          }
      | inr e ↦
          let next = run p (qs ++ r ∷ []) rs (IsLinked-append p qs r l e) in
          record {
            own = next.own;
            others = next.others;
            zones = rw (starts_anew-eq-is_gap p qs r ∙ e, zones_from) next.zones;
            whole = next.whole ∙ append_assoc (p ∷ qs) (r ∷ []) rs;
            linked = next.linked;
            apart = next.apart;
          }
    ]

    abbrev pub AllApart : List (Cluster W) → Type 0
    AllApart [] = Unit
    AllApart ((p, ps) ∷ gs) = IsApart p ps gs

    -- The levels cut at the gaps: linked inside a cluster, and a gap between it and the next.
    pub record IsClustering (points : List (PivotPoint W)) (gs : List (Cluster W)) : Type 0 where
      pub whole : levels_of gs ≡ points
      pub linked : AllLinked gs
      pub apart : AllApart gs

    clusters_of :
        (ps : List (PivotPoint W))
        → (gs : List (Cluster W)) × (zones_from tol [] ps ≡ zones_of gs) × IsClustering ps gs
    unfolding zones_from starts_anew
    clusters_of [] = ([], refl, record { whole = refl; linked = tt; apart = tt })
    clusters_of (p ∷ ps) =
        let r = run p [] ps tt in
        (
          (p, r.own) ∷ r.others,
          r.zones,
          record { whole = r.whole; linked = r.linked; apart = r.apart },
        )

    -- The zones are those of the clusters of the positive levels in the order of their prices: every
    -- level is in one cluster, neighbours in a cluster are within the tolerance, and between a
    -- cluster and the next is a gap above it.
    pub cluster_zones_exact :
        (points : List (PivotPoint W))
        → (gs : List (Cluster W)) × (cluster_zones tol points ≡ zones_of gs)
          × IsClustering (live_points points) gs
    unfolding cluster_zones
    cluster_zones_exact points = clusters_of (live_points points)
