-- ===== src/Execution/Guardian/Streaks.antt =====
-- When a heartbeat's failures add up to the kill switch.
use Prim.Native.Nat.{◌+◌}
use mathlib.Core.Path.{ap₂}
use nofx_cats_py.Prelude.{
  or_assoc, sym, ap, ◌∙◌, ℕ, ◌≡◌, refl, Bool, true, false, ◌&&◌, ◌||◌, Option, none, some, String,
  List, [], ◌∷◌, leb, string_eq, arith, is_some,
}
use nofx_cats_py.Result.{Result, ok, raise}
use nofx_cats_py.Dict.{contains, lookup-insert_self}
use nofx_cats_py.Domain.Account.{AccountState, activate_kill_switch}
use nofx_cats_py.Execution.Guardian.Heartbeat.{Guardian, failures_of, beat, beats}

-- Two failures stand side by side; `last` says that the one before the list was a failure.
abbrev pub two_in_a_row : {A : Type 0} → Bool → List (Result A) → Bool
two_in_a_row last [] = false
two_in_a_row last (ok _ ∷ rest) = two_in_a_row false rest
two_in_a_row last (raise _ ∷ rest) = last || two_in_a_row true rest

-- How many failures the list ends with, on top of `n` before it.
abbrev pub trailing : {A : Type 0} → ℕ → List (Result A) → ℕ
trailing n [] = n
trailing n (ok _ ∷ rest) = trailing 0 rest
trailing n (raise _ ∷ rest) = trailing (n + 1) rest

abbrev pub is_active : {D : Type 0} → Option (AccountState D) → Bool
is_active none = false
is_active (some s) = s.kill_switch_active

-- The guardian runs, and the symbol has a task.
abbrev pub beating : Guardian → String → Bool
beating g symbol = g.running && contains symbol g.heartbeat_tasks

module _ {A : Type 0} where
  trailing-cons :
      (n : ℕ) (answer : Result A) (rest : List (Result A))
      → trailing n (answer ∷ rest) ≡ trailing (trailing n (answer ∷ [])) rest
  trailing-cons n (ok _) rest = refl
  trailing-cons n (raise _) rest = refl

  two_in_a_row-cons :
      (n : ℕ) (answer : Result A) (rest : List (Result A))
      → two_in_a_row (leb 1 n) (answer ∷ rest) ≡ (
          two_in_a_row (leb 1 n) (answer ∷ [])
          || two_in_a_row (leb 1 (trailing n (answer ∷ []))) rest)
  two_in_a_row-cons n (ok _) rest = refl
  two_in_a_row-cons n (raise _) rest = ground arith

module _ {D A : Type 0} (symbol : String) where
  beat_lem :
      (answer : Result A) (g : Guardian) (s : Option (AccountState D))
      → beating g symbol ≡ true
      → is_some s ≡ true
      → let (g', s') = beat symbol answer (g, s) in
        (beating g' symbol ≡ true)
        × (is_some s' ≡ true)
        × (failures_of g' symbol ≡ trailing (failures_of g symbol) (answer ∷ []))
        × (is_active s'
            ≡ (is_active s || two_in_a_row (leb 1 (failures_of g symbol)) (answer ∷ [])))
  unfolding beat activate_kill_switch
  beat_lem (ok _) g (some s) h t = ground (arith, lookup-insert_self symbol 0 g.heartbeat_failures)
  beat_lem (ok _) g none h t = cc
  beat_lem (raise e) g (some s) h t =
      ground (arith, lookup-insert_self symbol (failures_of g symbol + 1) g.heartbeat_failures)
  beat_lem (raise e) g none h t = cc

  -- While a symbol's heartbeat runs, its failure count is the number of failures since the last
  -- success, and the account's kill switch is active exactly if it was before or two failures stood
  -- side by side, the failures before these passes included.
  pub beats_lem :
      (answers : List (Result A)) (g : Guardian) (s : Option (AccountState D))
      → beating g symbol ≡ true
      → is_some s ≡ true
      → let (g', s') = beats symbol answers (g, s) in
        (failures_of g' symbol ≡ trailing (failures_of g symbol) answers)
        × (is_active s' ≡ (is_active s || two_in_a_row (leb 1 (failures_of g symbol)) answers))
  unfolding beats
  beats_lem [] g s h t = ground arith
  beats_lem (answer ∷ rest) g s h t =
      let (h', t', f, k) = beat_lem answer g s h t in
      let (g', s') = beat symbol answer (g, s) in
      let (f', k') = beats_lem rest g' s' h' t' in
      let n = failures_of g symbol in
      (
        f' ∙ ap (λ m. trailing m rest) f ∙ sym (trailing-cons n answer rest),
        rw (two_in_a_row-cons n answer rest)
            (k' ∙ ap₂ (λ a m. a || two_in_a_row (leb 1 m) rest) k f ∙ or_assoc (is_active s) _ _),
      )
