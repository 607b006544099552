-- ===== src/Num/Cents.antt =====
-- A concrete `Num`: whole hundredths. It runs the definitions in tests, and meets the laws.
use kotsin_nse.Prelude.{ℕ, suc, ◌*◌, ◌/◌, refl, arith, ◌==◌, if◌then◌else◌}
use Prim.Native.Nat.{◌^◌}
use kotsin_nse.Prelude.Int.{ℤ, pos, negsuc, ◌+ℤ◌, ◌-ℤ◌, ◌*ℤ◌, ltb_ℤ, leb_ℤ, nat_abs}
use kotsin_nse.Num.{Num}
use kotsin_nse.Num.Laws.{IsOrdered}

-- A quotient of magnitudes, with the sign put back.
abbrev signed : ℤ → ℕ → ℤ
signed (pos n) q = pos q
signed (negsuc n) q = pos 0 -ℤ pos q

abbrev neg : ℤ → ℤ
neg a = pos 0 -ℤ a

abbrev quotient : ℤ → ℤ → ℤ
quotient a (pos n) = signed a (nat_abs a / n)
quotient a (negsuc n) = signed (neg a) (nat_abs a / suc n)

-- Division rounded down: one less where a negative quotient is cut.
abbrev floor_quotient : ℤ → ℤ → ℤ
floor_quotient a b =
    let q = quotient a b in
    let exact = b *ℤ q in
    if leb_ℤ (pos 0) b
    then (if ltb_ℤ a exact then q -ℤ pos 1 else q)
    else (if ltb_ℤ exact a then q -ℤ pos 1 else q)

abbrev pub Cents : Type 0
Cents = ℤ

instance abbrev pub cents_num : Num Cents
unfolding ◌+ℤ◌ ◌-ℤ◌ ◌*ℤ◌
cents_num = record {
  add = λ a b. a +ℤ b;
  sub = λ a b. a -ℤ b;
  mul = λ a b. quotient (a *ℤ b) (pos 100);
  div = λ a b. quotient (a *ℤ pos 100) b;
  lt = ltb_ℤ;
  le = leb_ℤ;
  eq = λ a b. nat_abs (a -ℤ b) == 0;
  abs = λ a. pos (nat_abs a);
  of_int = λ n. n *ℤ pos 100;
  lit = λ m k. pos (m * 100 / 10 ^ k);
  round = λ k x. x;
  trunc = λ x. quotient x (pos 100);
  floor_div = floor_quotient;
}

pub Cents-IsOrdered : IsOrdered Cents
unfolding ◌+ℤ◌ ◌-ℤ◌ ◌*ℤ◌
Cents-IsOrdered = record {
  le_refl = λ x. ground arith;
  le_trans = λ x y z h k. ground arith;
  lt-eq-not-le = λ x y. ground arith;
  le_of_lt = λ x y h. ground arith;
  eq-eq-le = λ x y. ground arith;
  round_mono = λ k x y h. h;
  round-round = λ k x. refl;
}
