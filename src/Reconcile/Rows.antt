-- ===== src/Reconcile/Rows.antt =====
-- Python's comparison of tuples, `sorted`, and the equality of two lists, which `_is_mismatch` is made of.
use Prim.Native.Char.{code}
use Prim.Native.String.{String}
use nofx_cats_py.Prelude.{
  Bool, true, false, not, ◌&&◌, List, [], ◌∷◌, ltb, ◌==◌, string_eq, if◌then◌else◌,
}
use nofx_cats_py.Num.{Number}

-- `a < b` and `a == b`.
pub record Comparable {ℓ} (A : Type ℓ) : Type ℓ where
  pub before : A → A → Bool
  pub same : A → A → Bool

-- Texts are ordered by the codes of their characters.
unfoldable pub string_before : String → String → Bool
string_before String.[] String.[] = false
string_before String.[] (String.◌∷◌ d t) = true
string_before (String.◌∷◌ c s) String.[] = false
string_before (String.◌∷◌ c s) (String.◌∷◌ d t) =
    let rest = string_before s t in
    if ltb (code c) (code d) then true else if ltb (code d) (code c) then false else rest

instance abbrev pub string_comparable : Comparable String
string_comparable = record { before = string_before; same = λ s t. s == t }

abbrev pub number_comparable : {D : Type 0} ⦃n : Number D⦄ → Comparable D
number_comparable ⦃n⦄ = record { before = n.lt; same = n.eq }

-- The first part that differs decides.
instance abbrev pub pair_comparable {ℓ κ} :
    {A : Type ℓ} {B : Type κ} ⦃a : Comparable A⦄ ⦃b : Comparable B⦄ → Comparable (A × B)
pair_comparable ⦃a⦄ ⦃b⦄ = record {
  before = λ x y. if a.same (x.0) (y.0) then b.before (x.1) (y.1) else a.before (x.0) (y.0);
  same = λ x y. a.same (x.0) (y.0) && b.same (x.1) (y.1);
}

module _ {ℓ} {A : Type ℓ} ⦃c : Comparable A⦄ where
  -- `x` in front of all that are not smaller.
  unfoldable pub put : A → List A → List A
  put x [] = x ∷ []
  put x (y ∷ ys) = let rest = put x ys in if c.before y x then y ∷ rest else x ∷ y ∷ ys

  -- `sorted(xs)`, which is stable.
  unfoldable pub sorted : List A → List A
  unfolding put
  sorted [] = []
  sorted (x ∷ xs) = put x (sorted xs)

  -- `xs == ys`
  unfoldable pub same_list : List A → List A → Bool
  same_list [] [] = true
  same_list (x ∷ xs) (y ∷ ys) = c.same x y && same_list xs ys
  same_list _ _ = false

  -- `sorted(xs) != sorted(ys)`
  abbrev pub differ : List A → List A → Bool
  differ xs ys = not (same_list (sorted xs) (sorted ys))
