-- ===== src/Raise.antt =====
-- Blocks of statements that leave their function by an exception only.
use nofx_cats_py.Prelude.{◌≡◌, refl, Bool, if◌then◌else◌}
use nofx_cats_py.Result.{Exception, Result, ok, raise}

-- `if failed: raise e`
abbrev pub raise_if : Bool → Exception → Result (Unit {0})
raise_if failed e = if failed then raise e else ok tt

module _ {ℓ κ} {A : Type ℓ} {B : Type κ} where
  infixl 5 ◌>>=◌
  -- An exception passes over the rest of the block.
  abbrev pub ◌>>=◌ : Result A → (A → Result B) → Result B
  raise e >>= rest = raise e
  ok value >>= rest = rest value

  -- A block that came to its end did so through its first part.
  pub >>=-eq-ok :
      (first : Result A) (rest : A → Result B) {end : B}
      → (first >>= rest) ≡ ok end
      → (value : A) × (first ≡ ok value) × (rest value ≡ ok end)
  >>=-eq-ok (raise e) rest done = cc
  >>=-eq-ok (ok value) rest done = (value, refl, done)

infixl 5 ◌>>◌
abbrev pub ◌>>◌ {κ} : {B : Type κ} → Result (Unit {0}) → Result B → Result B
ok _ >> rest = rest
raise e >> rest = raise e
