-- ===== src/Num/Order.antt =====
-- Numbers with Boolean comparisons, and Python's `min` and `max` over them.
use nofx_cats_py.Prelude.{
  ℕ, ◌≡◌, refl, ◌⊎◌, inl, Bool, true, false, List, [], ◌∷◌, arith, All, if◌then◌else◌,
}
use nofx_cats_py.Prelude.Int.{ℤ, pos}

-- What the program does with a `float` or a `Decimal`. `literal m e` is the constant m · 10^-e.
-- A comparison with NaN is false, as in IEEE arithmetic. A `Decimal` NaN, whose ordering raises in Python,
-- is written out where one can come up (`compared` in Paper/State).
pub record Number {ℓ} (N : Type ℓ) : Type ℓ where
  pub literal : ℤ → ℕ → N
  pub plus : N → N → N
  pub minus : N → N → N
  pub times : N → N → N
  pub divide : N → N → N
  pub negative : N → N
  pub absolute : N → N
  pub lt : N → N → Bool
  pub le : N → N → Bool
  pub eq : N → N → Bool

module _ {ℓ} {N : Type ℓ} ⦃n : Number N⦄ where
  infixl 65 ◌+◌ ◌-◌
  infixl 70 ◌*◌ ◌/◌
  infix 50 ◌<?◌ ◌≤?◌ ◌=?◌
  abbrev pub ◌+◌ : N → N → N
  a + b = n.plus a b

  abbrev pub ◌-◌ : N → N → N
  a - b = n.minus a b

  abbrev pub ◌*◌ : N → N → N
  a * b = n.times a b

  abbrev pub ◌/◌ : N → N → N
  a / b = n.divide a b

  abbrev pub ◌<?◌ : N → N → Bool
  a <? b = n.lt a b

  abbrev pub ◌≤?◌ : N → N → Bool
  a ≤? b = n.le a b

  abbrev pub ◌=?◌ : N → N → Bool
  a =? b = n.eq a b

  abbrev pub abs : N → N
  abs a = n.absolute a

  abbrev pub opposite : N → N
  opposite a = n.negative a

  abbrev pub lit : ℤ → ℕ → N
  lit m e = n.literal m e

  abbrev pub num : ℕ → N
  num m = n.literal (pos m) 0

  -- `min(a, b)`: the first argument, unless the second is smaller.
  abbrev pub min : N → N → N
  min a b = if b <? a then b else a

  -- `max(a, b)`: the first argument, unless the second is greater.
  abbrev pub max : N → N → N
  max a b = if a <? b then b else a

  -- `min` of a list that begins with `best`.
  unfoldable pub min_of : N → List N → N
  min_of best [] = best
  min_of best (x ∷ xs) = min_of (min best x) xs

  unfoldable pub sum_from : N → List N → N
  sum_from acc [] = acc
  sum_from acc (x ∷ xs) = sum_from (acc + x) xs

-- All that the proofs ask of an order. It holds of IEEE floats, NaN included, and of `Decimal` numbers.
pub record IsStrictOrder {ℓ} (N : Type ℓ) ⦃n : Number N⦄ : Type ℓ where
  pub irrefl : (a : N) → (a <? a) ≡ false
  pub trans : (a b c : N) → (a <? b) ≡ true → (b <? c) ≡ true → (a <? c) ≡ true

module _ {ℓ} {N : Type ℓ} ⦃n : Number N⦄ (order : IsStrictOrder N) where
  open order use {irrefl, trans}

  -- `min` is not greater than either of its arguments.
  pub not_above_min_left : (a b : N) → (a <? min a b) ≡ false
  not_above_min_left a b = ground (arith, irrefl a, trans b a b, irrefl b)

  pub not_above_min_right : (a b : N) → (b <? min a b) ≡ false
  not_above_min_right a b = ground (arith, irrefl b)

  pub not_below_max_left : (a b : N) → (max a b <? a) ≡ false
  not_below_max_left a b = ground (arith, irrefl a, trans a b a)

  min_of-eq-or-lt :
      (xs : List N) (best : N) → (min_of best xs ≡ best) ⊎ ((min_of best xs <? best) ≡ true)
  unfolding min_of
  min_of-eq-or-lt [] best = inl refl
  min_of-eq-or-lt (x ∷ xs) best =
      ground (arith, min_of-eq-or-lt xs (min best x), trans (min_of (min best x) xs) x best)

  -- A bound on the starting value is kept: what is not below it is not below the result.
  not_below_min_of :
      (xs : List N) (best y : N) → (y <? best) ≡ false → (y <? min_of best xs) ≡ false
  not_below_min_of xs best y h =
      ground (arith, min_of-eq-or-lt xs best, trans y (min_of best xs) best)

  min_of-All_tail : (xs : List N) (best : N) → All (λ x. (x <? min_of best xs) ≡ false) xs
  unfolding min_of
  min_of-All_tail [] best = tt
  min_of-All_tail (x ∷ xs) best = (
    not_below_min_of xs (min best x) x (not_above_min_right best x),
    min_of-All_tail xs (min best x),
  )

  -- No element of the list is smaller than `min` of it.
  pub min_of-All : (xs : List N) (best : N) → All (λ x. (x <? min_of best xs) ≡ false) (best ∷ xs)
  min_of-All xs best = (not_below_min_of xs best best (irrefl best), min_of-All_tail xs best)
