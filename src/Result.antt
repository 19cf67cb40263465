-- ===== src/Result.antt =====
-- Python's exceptions and early returns as values.
use nofx_cats_py.Prelude.{◌≡◌, refl, Bool, true, false, String, ◌⊎◌, inl, inr}

-- The exceptions that the program raises itself, with the text that they carry.
pub data Exception : Type 0 where
  key_error value_error runtime_error : String → Exception
  zero_division : Exception
  other_error : String → Exception

pub data Result {ℓ} (A : Type ℓ) : Type ℓ where
  ok : A → Result A
  raise : Exception → Result A

pub ok-injective {ℓ} : {A : Type ℓ} {a b : A} → ok a ≡ ok b → a ≡ b
ok-injective h = cc

abbrev pub is_ok {ℓ} : {A : Type ℓ} → Result A → Bool
is_ok (ok a) = true
is_ok (raise e) = false

pub Result-cases {ℓ} :
    {A : Type ℓ} (m : Result A) → ((a : A) × (m ≡ ok a)) ⊎ ((e : Exception) × (m ≡ raise e))
Result-cases (ok a) = inl (a, refl)
Result-cases (raise e) = inr (e, refl)

-- A block of statements: it leaves its function with a result, or goes on.
pub data Flow {ℓ κ} (R : Type ℓ) (A : Type κ) : Type (ℓ ⊔ κ) where
  leave : R → Flow R A
  next : A → Flow R A

infixl 5 ◌>>=◌ ◌>>◌
abbrev pub ◌>>=◌ {ℓ κ μ} :
    {R : Type ℓ} {A : Type κ} {B : Type μ} → Flow R A → (A → Flow R B) → Flow R B
leave r >>= f = leave r
next a >>= f = f a

abbrev pub ◌>>◌ {ℓ μ} : {R : Type ℓ} {B : Type μ} → Flow R (Unit {0}) → Flow R B → Flow R B
m >> k = m >>= λ _. k

-- `if c: return r`
abbrev pub leave_if {ℓ} : {R : Type ℓ} → Bool → R → Flow R (Unit {0})
leave_if true r = leave r
leave_if false r = next tt

-- The value of a function whose every path ends in a `return`.
abbrev pub returned {ℓ} : {R : Type ℓ} → Flow R R → R
returned (leave r) = r
returned (next r) = r

module _ {ℓ κ μ} {R : Type ℓ} {A : Type κ} {B : Type μ} where
  -- A block that went on did so through its first part.
  pub >>=-eq-next :
      (m : Flow R A) (f : A → Flow R B) {b : B}
      → (m >>= f) ≡ next b
      → (a : A) × (m ≡ next a) × (f a ≡ next b)
  >>=-eq-next (leave r) f h = cc
  >>=-eq-next (next a) f h = (a, refl, h)
