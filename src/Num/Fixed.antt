-- ===== src/Num/Fixed.antt =====
-- Decimal fixed point with eight places, over the integers: a type of numbers on which the models run.
use Prim.Native.Nat.{◌^◌, ◌-◌}
use nofx_cats_py.Prelude.{arith}
use nofx_cats_py.Prelude.Int.{ℤ, pos, ◌+ℤ◌, ◌-ℤ◌, ◌*ℤ◌, neg, abs, quot, ltb_ℤ, leb_ℤ, beq_ℤ}
use nofx_cats_py.Num.Order.{Number, IsStrictOrder}

abbrev pub scale : ℤ
scale = pos (10 ^ 8)

instance abbrev pub fixed : Number ℤ
fixed = record {
  literal = λ m e. m *ℤ pos (10 ^ (8 - e));
  plus = ◌+ℤ◌;
  minus = ◌-ℤ◌;
  times = λ a b. quot (a *ℤ b) scale;
  divide = λ a b. quot (a *ℤ scale) b;
  negative = neg;
  absolute = abs;
  lt = ltb_ℤ;
  le = leb_ℤ;
  eq = beq_ℤ;
}

pub fixed-IsStrictOrder : IsStrictOrder ℤ
fixed-IsStrictOrder = ground arith
