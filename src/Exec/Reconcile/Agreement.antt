-- ===== src/Exec/Reconcile/Agreement.antt =====
-- When the reconciler freezes entries: exactly when the two books disagree on some contract.
use kotsin_nse.Prelude.{
  ℕ, suc, ◌+◌, ◌<◌, String, ◌≡◌, ◌↔◌, refl, Bool, true, false, none, some, List, [], ◌∷◌, ◌++◌, All,
  arith, Option-cases, Bool-cases, inl, inr,
}
use kotsin_nse.Prelude.Int.{pos, negsuc, nat_abs, is_zero}
use kotsin_nse.Prelude.Strings.{str_eq_iff}
use kotsin_nse.Prelude.Dict.{
  Dict, lookup, insert, lookup-insert, IsUnique, insert-IsUnique, All-lookup, All-of_lookup,
}
use kotsin_nse.Domain.{Position, is_opened}
use kotsin_nse.Exec.Reconcile.{
  VenueRow, Mismatch, Reconciler, venue_from, venue_of, local_from, local_of, venue_check,
  local_check, over, mismatches_of, run, is_held, any,
}

-- What the broker shows of a contract, and what the engine holds of it.
abbrev pub venue_qty : String → Dict VenueRow → ℕ
venue_qty k d = elim (lookup k d) [ none ↦ 0 | some row ↦ nat_abs row.net_qty ]

abbrev pub local_qty : {W : Type 0} → String → Dict (Position W) → ℕ
local_qty k d = elim (lookup k d) [ none ↦ 0 | some p ↦ p.qty_remaining ]

append_nil {ℓ} : {A : Type ℓ} (xs ys : List A) → xs ++ ys ≡ [] → (xs ≡ []) × (ys ≡ [])
append_nil [] ys h = (refl, h)
append_nil (x ∷ xs) ys h = cc

over_nil {ℓ} :
    {A : Type ℓ} (check : A → List Mismatch) (xs : List A)
    → over check xs ≡ []
    → All (λ x. check x ≡ []) xs
unfolding over
over_nil check [] h = tt
over_nil check (x ∷ xs) h =
    let (p, q) = append_nil (check x) (over check xs) h in (p, over_nil check xs q)

nil_over {ℓ} :
    {A : Type ℓ} (check : A → List Mismatch) (xs : List A)
    → All (λ x. check x ≡ []) xs
    → over check xs ≡ []
unfolding over
nil_over check [] h = refl
nil_over check (x ∷ xs) h = rw (h.0, nil_over check xs h.1)

-- A dict that the loops read: no key twice, and no entry of quantity 0.
abbrev Holds {ℓ} : {V : Type ℓ} → (V → ℕ) → Dict V → Type ℓ
Holds qty d = IsUnique d × ((k : String) (v : _) → lookup k d ≡ some v → 0 < qty v)

abbrev net : VenueRow → ℕ
net row = nat_abs row.net_qty

insert-Holds :
    {V : Type 0} (qty : V → ℕ) (k : String) (v : V) (d : Dict V)
    → 0 < qty v
    → Holds qty d
    → Holds qty (insert k v d)
insert-Holds qty k v d h (u, p) =
    (insert-IsUnique k v d u, λ j w e. ground (arith, lookup-insert k j v d, p j w))

venue_from-Holds :
    (rows : List VenueRow) (d : Dict VenueRow) → Holds net d → Holds net (venue_from d rows)
unfolding venue_from
venue_from-Holds [] d h = h
venue_from-Holds (r ∷ rows) d h = elim (Bool-cases (is_zero r.net_qty)) [
  | inl zero_net ↦ rw zero_net (venue_from-Holds rows d h)
  | inr some_net ↦ rw some_net (
      venue_from-Holds rows (insert r.scrip_code r d)
        (insert-Holds net r.scrip_code r d (ground arith) h))
]

venue_of-Holds : (rows : List VenueRow) → Holds net (venue_of rows)
unfolding venue_of
venue_of-Holds rows = venue_from-Holds rows [] (tt, λ k v e. cc)

any_iff : (ms : List Mismatch) → (any ms ≡ false) ↔ (ms ≡ [])
any_iff [] = ground arith
any_iff (m ∷ ms) = ground arith

module _ {W : Type 0} where
  abbrev held_qty : Position W → ℕ
  held_qty p = p.qty_remaining

  local_from-Holds :
      (ps : List (Position W)) (d : Dict (Position W))
      → Holds held_qty d
      → Holds held_qty (local_from d ps)
  unfolding local_from
  local_from-Holds [] d h = h
  local_from-Holds (p ∷ ps) d h = elim (Bool-cases (is_held p)) [
    | inl held ↦ rw held (
        local_from-Holds ps (insert p.instrument.scrip_code p d)
          (insert-Holds held_qty p.instrument.scrip_code p d (ground arith) h))
    | inr gone ↦ rw gone (local_from-Holds ps d h)
  ]

  local_of-Holds :
      (ps : List (Position W)) (at_venue : Bool) → Holds held_qty (local_of ps at_venue)
  unfolding local_of
  local_of-Holds ps true = local_from-Holds ps [] (tt, λ k v e. cc)
  local_of-Holds ps false = (tt, λ k v e. cc)

  -- The two books agree on every contract.
  abbrev pub Agree : Dict VenueRow → Dict (Position W) → Type 0
  Agree venue local = (k : String) → venue_qty k venue ≡ local_qty k local

  -- The checks of one contract pass exactly if its quantities agree.
  checks_pass :
      (k : String) (venue : Dict VenueRow) (local : Dict (Position W))
      → ((row : VenueRow) → lookup k venue ≡ some row → venue_check local (k, row) ≡ [])
      → ((p : Position W) → lookup k local ≡ some p → local_check venue (k, p) ≡ [])
      → venue_qty k venue ≡ local_qty k local
  unfolding venue_check local_check
  checks_pass k venue local v l = elim (Option-cases (lookup k venue)) [
    | inl absent ↦ elim (Option-cases (lookup k local)) [
      | inl gone ↦ ground arith
      | inr (p, e) ↦ ground (arith, l p)
    ]
    | inr (row, e) ↦ ground (arith, v row)
  ]

  venue_check_of_eq :
      (k : String) (venue : Dict VenueRow) (local : Dict (Position W)) (row : VenueRow)
      → lookup k venue ≡ some row
      → 0 < net row
      → venue_qty k venue ≡ local_qty k local
      → venue_check local (k, row) ≡ []
  unfolding venue_check
  venue_check_of_eq k venue local row e h q = ground arith

  local_check_of_eq :
      (k : String) (venue : Dict VenueRow) (local : Dict (Position W)) (p : Position W)
      → lookup k local ≡ some p
      → 0 < p.qty_remaining
      → venue_qty k venue ≡ local_qty k local
      → local_check venue (k, p) ≡ []
  unfolding local_check
  local_check_of_eq k venue local p e h q = ground arith

  -- The comparison finds nothing exactly if the books agree.
  mismatches_exact :
      (venue : Dict VenueRow) (local : Dict (Position W))
      → Holds net venue
      → Holds held_qty local
      → (mismatches_of venue local ≡ []) ↔ Agree venue local
  unfolding mismatches_of
  mismatches_exact venue local hv hl = (
    λ h.
        let (ev, el) =
          append_nil (over (venue_check local) venue) (over (local_check venue) local) h in
        λ k.
          checks_pass k venue local
            (λ row.
              All-lookup (λ e. venue_check local e ≡ []) venue
                (over_nil (venue_check local) venue ev))
            (λ p.
              All-lookup (λ e. local_check venue e ≡ []) local
                (over_nil (local_check venue) local el)),
    λ agree. rw (
      nil_over (venue_check local) venue (
          All-of_lookup (λ e. venue_check local e ≡ []) venue hv.0
            λ k row e. venue_check_of_eq k venue local row e (hv.1 k row e) (agree k)),
      nil_over (local_check venue) local (
          All-of_lookup (λ e. local_check venue e ≡ []) local hl.0
            λ k p e. local_check_of_eq k venue local p e (hl.1 k p e) (agree k)),
    ),
  )

  thawed_iff :
      (rows : List VenueRow) (ps : List (Position W)) (at_venue : Bool) (r : Reconciler)
      → ((run (some rows) ps at_venue r).1.frozen ≡ false)
        ↔ (mismatches_of (venue_of rows) (local_of ps at_venue) ≡ [])
  unfolding run
  thawed_iff rows ps at_venue r = any_iff (mismatches_of (venue_of rows) (local_of ps at_venue))

  -- When the broker answers, entries are free afterwards exactly if, on every contract, the size
  -- of the broker's net position is the quantity that the engine compares with it; when the
  -- broker does not answer, they are frozen.
  pub reconcile_exact :
      (rows : List VenueRow) (ps : List (Position W)) (at_venue : Bool) (r : Reconciler)
      → (((run (some rows) ps at_venue r).1.frozen ≡ false)
          ↔ Agree (venue_of rows) (local_of ps at_venue))
        × ((run none ps at_venue r).1.frozen ≡ true)
  unfolding run
  reconcile_exact rows ps at_venue r =
      let exact =
        mismatches_exact (venue_of rows) (local_of ps at_venue) (venue_of-Holds rows)
          (local_of-Holds ps at_venue) in
      let thaw = thawed_iff rows ps at_venue r in
      ((λ h. exact.0 (thaw.0 h), λ h. thaw.1 (exact.1 h)), refl)

  -- Two books that hold the same contract freeze the engine although the broker shows exactly
  -- their sum: the comparison keeps one of the two positions.
  pub shared_contract_freezes :
      (p q : Position W) (symbol : String) (r : Reconciler)
      → is_held p ≡ true
      → is_held q ≡ true
      → p.instrument.scrip_code ≡ q.instrument.scrip_code
      → let row : VenueRow = record {
        scrip_code = q.instrument.scrip_code;
        symbol = symbol;
        net_qty = pos (p.qty_remaining + q.qty_remaining);
      } in
        (run (some (row ∷ [])) (p ∷ q ∷ []) true r).1.frozen ≡ true
  unfolding run venue_of local_of mismatches_of
  shared_contract_freezes p q symbol r hp hq same = ground (
    arith,
    str_eq_iff q.instrument.scrip_code p.instrument.scrip_code,
    str_eq_iff q.instrument.scrip_code q.instrument.scrip_code,
  )

  -- The direction of the broker's position is not compared: a short of the same size passes.
  pub opposite_side_passes :
      (p : Position W) (n : ℕ) (symbol : String) (r : Reconciler)
      → is_opened p.status ≡ true
      → p.qty_remaining ≡ suc n
      → let row : VenueRow = record {
        scrip_code = p.instrument.scrip_code;
        symbol = symbol;
        net_qty = negsuc n;
      } in
        (run (some (row ∷ [])) (p ∷ []) true r).1.frozen ≡ false
  unfolding run
  opposite_side_passes p n symbol r o e =
      ground (arith, str_eq_iff p.instrument.scrip_code p.instrument.scrip_code)
