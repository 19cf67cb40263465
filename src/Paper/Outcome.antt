-- ===== src/Paper/Outcome.antt =====
-- How `PaperExecutionService.apply_decision` ends.
use nofx_cats_py.Prelude.{
  ℕ, ◌≡◌, ◌⊎◌, inl, inr, true, Option, none, arith, string_eq, pair_eq, Option-cases, Bool-cases,
}
use nofx_cats_py.Result.{ok}
use nofx_cats_py.Raise.{◌>>=◌, >>=-eq-ok}
use nofx_cats_py.Num.{Number, Float, Decimal, Conversion, ◌≤?◌, num}
use nofx_cats_py.Domain.Signals.{FeatureVector, TradeDecision, RiskDecision}
use nofx_cats_py.Paper.State.{PaperFillResult, PaperState}
use nofx_cats_py.Paper.Fill.{Fill, executable, fill_of, apply_fill, apply_decision}
use nofx_cats_py.Paper.Books.{IsSynced, apply_fill-IsSynced}

module _ {D F : Type 0} ⦃n : Number D⦄ ⦃q : Decimal D⦄ ⦃m : Number F⦄ ⦃f : Float F⦄
    ⦃c : Conversion D F⦄ where
  -- A decision that is applied either changes nothing or is a fill.
  pub apply_decision-cases :
      (d : TradeDecision F D) (feature : FeatureVector F) (ts : ℕ) (p : PaperState D F)
      {r : Option (PaperFillResult D)} {p' : PaperState D F}
      → apply_decision d feature ts p ≡ ok (r, p')
      → (((executable d ≡ none) ⊎ ((feature.reference_price ≤? num 0) ≡ true))
          × (r ≡ none)
          × (p' ≡ p))
        ⊎ ((risk : RiskDecision F) × (fill : Fill D) × (apply_fill d risk ts fill p ≡ ok (r, p')))
  unfolding apply_decision
  apply_decision-cases d feature ts p {r} {p'} h = elim (Option-cases (executable d)) [
    | inl e ↦ inl (inl e, ground arith, ground arith)
    | inr ((side, risk), e) ↦ elim (Bool-cases (feature.reference_price ≤? num 0)) [
      | inl low ↦ inl (inr low, ground arith, ground arith)
      | inr high ↦
          let run : (fill_of p side feature.reference_price risk.approved_notional >>= λ fill.
          apply_fill d risk ts fill p)
              ≡ ok (r, p') =
            ground arith in
          let (fill, made, done) =
            >>=-eq-ok (fill_of p side feature.reference_price risk.approved_notional)
              (λ fill. apply_fill d risk ts fill p) run in
          inr (risk, fill, done)
    ]
  ]

  -- A decision that is applied without an exception either changes nothing, and that is so when it is
  -- no execution or has no price, or leaves an account whose wallet agrees with the books and whose
  -- kill switch is on if the wallet is empty.
  pub apply_decision-IsSynced :
      (d : TradeDecision F D) (feature : FeatureVector F) (ts : ℕ) (p : PaperState D F)
      {r : Option (PaperFillResult D)} {p' : PaperState D F}
      → apply_decision d feature ts p ≡ ok (r, p')
      → (((executable d ≡ none) ⊎ ((feature.reference_price ≤? num 0) ≡ true))
          × (r ≡ none)
          × (p' ≡ p))
        ⊎ IsSynced p'
  apply_decision-IsSynced d feature ts p h = elim (apply_decision-cases d feature ts p h) [
    | inl unchanged ↦ inl unchanged
    | inr (risk, fill, done) ↦ inr (apply_fill-IsSynced d risk ts fill p done)
  ]
