-- ===== src/Reconcile/Sorted.antt =====
-- Two lists are equal when sorted exactly if one is a rearrangement of the other.
use Prim.Native.Char.{code}
use text.Mathlib.TextEquality.{Char-path}
use mathlib.Core.Bool.{Bool-set}
use mathlib.Core.List.Permᴰ
use mathlib.Core.List.{Permᴰ, Perm}
use mathlib.Core.Logic.{∥∥₁_elim}
use nofx_cats_py.Prelude.{
  ◌≡◌, ◌↔◌, refl, sym, ap, ◌∙◌, inl, inr, String, true, false, List, [], ◌∷◌, arith, subst,
  Bool-cases, string_eq,
}
use nofx_cats_py.Reconcile.Rows.{
  Comparable, string_before, string_comparable, pair_comparable, put, sorted, same_list,
}

-- A strict total order, whose equality test is equality.
pub record IsTotal {ℓ} (A : Type ℓ) ⦃c : Comparable A⦄ : Type ℓ where
  pub same_iff : (a b : A) → (c.same a b ≡ true) ↔ (a ≡ b)
  pub irrefl : (a : A) → c.before a a ≡ false
  pub trans : (a b d : A) → c.before a b ≡ true → c.before b d ≡ true → c.before a d ≡ true
  pub total : (a b : A) → c.before a b ≡ false → c.before b a ≡ false → a ≡ b

module _ {ℓ} {A : Type ℓ} ⦃c : Comparable A⦄ (order : IsTotal A) where
  put-put : (a b : A) (ys : List A) → put a (put b ys) ≡ put b (put a ys)
  unfolding put
  put-put a b [] = ground (arith, order.total a b, order.irrefl a, order.trans a b a)
  put-put a b (y ∷ ys) = ground (
    arith,
    put-put a b ys,
    order.total a b,
    order.irrefl a,
    order.trans a b a,
    order.trans y a b,
    order.trans y b a,
    order.total a y,
    order.total b y,
  )

  put-Perm : (x : A) (ys : List A) → Permᴰ (put x ys) (x ∷ ys)
  unfolding put
  put-Perm x [] = Permᴰ.refl (x ∷ [])
  put-Perm x (y ∷ ys) = elim (Bool-cases (c.before y x)) [
    | inl less ↦ rw less (Permᴰ.trans (Permᴰ.cons refl (put-Perm x ys)) (Permᴰ.swap refl refl))
    | inr not_less ↦ rw not_less (Permᴰ.refl (x ∷ y ∷ ys))
  ]

  sorted-Perm : (xs : List A) → Permᴰ (sorted xs) xs
  unfolding sorted
  sorted-Perm [] = Permᴰ.nil
  sorted-Perm (x ∷ xs) = Permᴰ.trans (put-Perm x (sorted xs)) (Permᴰ.cons refl (sorted-Perm xs))

  Perm-sorted : {xs ys : List A} → Permᴰ xs ys → sorted xs ≡ sorted ys
  unfolding sorted
  Perm-sorted Permᴰ.nil = refl
  Perm-sorted (Permᴰ.cons {b = b} {l₁ = xs} e d) =
      ap (λ a. put a (sorted xs)) e ∙ ap (put b) (Perm-sorted d)
  Perm-sorted (Permᴰ.swap {a} {b} {a' = a'} {l = l} e f) =
      put-put a b (sorted l)
      ∙ (ap (λ c. put c (put a (sorted l))) f ∙ ap (λ c. put a' (put c (sorted l))) e)
  Perm-sorted (Permᴰ.trans d e) = Perm-sorted d ∙ Perm-sorted e

  same_list_iff : (xs ys : List A) → (same_list xs ys ≡ true) ↔ (xs ≡ ys)
  unfolding same_list
  same_list_iff [] [] = ground arith
  same_list_iff [] (y ∷ ys) = ground arith
  same_list_iff (x ∷ xs) [] = ground arith
  same_list_iff (x ∷ xs) (y ∷ ys) = ground (arith, same_list_iff xs ys, order.same_iff x y)

  -- Sorting makes lists equal exactly if they are rearrangements of each other.
  pub same_list-sorted : (xs ys : List A) → (same_list (sorted xs) (sorted ys) ≡ true) ↔ Perm xs ys
  same_list-sorted xs ys = (
    λ equal.
        ∣ Permᴰ.trans (Permᴰ.symm (sorted-Perm xs)) (
          subst (λ zs. Permᴰ zs ys) (sym ((same_list_iff (sorted xs) (sorted ys)).0 equal))
            (sorted-Perm ys)) ∣₁,
    λ same.
        ∥∥₁_elim same (Bool-set _ _)
          (λ d. (same_list_iff (sorted xs) (sorted ys)).1 (Perm-sorted d)),
  )

module _ {ℓ κ} {A : Type ℓ} {B : Type κ} ⦃a : Comparable A⦄ ⦃b : Comparable B⦄ (first : IsTotal A)
    (second : IsTotal B) where
  pair_total :
      (x y : A × B)
      → pair_comparable.before x y ≡ false
      → pair_comparable.before y x ≡ false
      → x ≡ y
  pair_total (x, z) (y, w) low high =
      ground (arith, first.total x y, second.total z w, first.same_iff x y, first.same_iff y x)

  pair_same_iff : (x y : A × B) → (pair_comparable.same x y ≡ true) ↔ (x ≡ y)
  pair_same_iff (x, z) (y, w) = ground (arith, first.same_iff x y, second.same_iff z w)

  pub pair-IsTotal : IsTotal (A × B)
  pair-IsTotal = record {
    same_iff = pair_same_iff;
    irrefl = λ x. ground (arith, first.irrefl (x.0), second.irrefl (x.1));
    trans = λ x y z lower upper. ground (
      arith,
      first.trans (x.0) (y.0) (z.0),
      second.trans (x.1) (y.1) (z.1),
      first.same_iff (x.0) (y.0),
      first.same_iff (y.0) (z.0),
      first.same_iff (x.0) (z.0),
      first.irrefl (x.0),
      first.irrefl (y.0),
      first.trans (x.0) (y.0) (x.0),
    );
    total = pair_total;
  }

string_trans :
    (s t u : String)
    → string_before s t ≡ true
    → string_before t u ≡ true
    → string_before s u ≡ true
unfolding string_before
string_trans String.[] String.[] String.[] lower upper = cc
string_trans String.[] (String.◌∷◌ d t) String.[] lower upper = cc
string_trans String.[] t (String.◌∷◌ e u) lower upper = refl
string_trans (String.◌∷◌ c s) String.[] u lower upper = cc
string_trans (String.◌∷◌ c s) (String.◌∷◌ d t) String.[] lower upper = cc
string_trans (String.◌∷◌ c s) (String.◌∷◌ d t) (String.◌∷◌ e u) lower upper =
    ground (arith, string_trans s t u)

string_irrefl : (s : String) → string_before s s ≡ false
unfolding string_before
string_irrefl String.[] = refl
string_irrefl (String.◌∷◌ c s) = ground (arith, string_irrefl s)

string_total : (s t : String) → string_before s t ≡ false → string_before t s ≡ false → s ≡ t
unfolding string_before
string_total String.[] String.[] low high = refl
string_total String.[] (String.◌∷◌ d t) low high = cc
string_total (String.◌∷◌ c s) String.[] low high = cc
string_total (String.◌∷◌ c s) (String.◌∷◌ d t) low high =
    let codes : code c ≡ code d = ground arith in
    let rest : s ≡ t = string_total s t (ground arith) (ground arith) in
    ap (λ e. String.◌∷◌ e s) (Char-path c d codes) ∙ ap (String.◌∷◌ d) rest

pub string-IsTotal : IsTotal String
string-IsTotal = record {
  same_iff = λ s t. string_eq.beq_iff s t;
  irrefl = string_irrefl;
  trans = string_trans;
  total = string_total;
}
