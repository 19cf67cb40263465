-- ===== src/Decision/Engine.antt =====
-- src/cats_py/services/decision_engine.py. The random `decision_id` and the clock's readings enter as
-- arguments.
use nofx_cats_py.Prelude.{
  ◌≡◌, refl, ◌⊎◌, inl, inr, ℕ, none, some, String, List, [], ◌∷◌, ◌++◌, concat, if◌then◌else◌,
}
use nofx_cats_py.Result.{Result, ok, raise}
use nofx_cats_py.Num.{Number, Float, ◌<?◌, ◌≤?◌, num}
use nofx_cats_py.Domain.Enums.{MarketRegime, is_defense, is_approved}
use nofx_cats_py.Domain.Signals.{
  FeatureVector, SignalCandidate, AccountSnapshot, RiskDecision, TradeDecision, trade_execute,
  trade_no_trade,
}
use nofx_cats_py.Risk.Kernel.{RiskKernel, evaluate}
use nofx_cats_py.Decision.Features.{enrich, detect}
use nofx_cats_py.Decision.Strategies.{Strategy}
use nofx_cats_py.Decision.Allocator.{score}

-- What the last loop finds: a candidate with its approval, or the reasons against all.
pub data Choice (F : Type 0) : Type 0 where
  chosen : SignalCandidate F → RiskDecision F → Choice F
  nothing_chosen : List String → Choice F

pub Choice-cases :
    {F : Type 0} (c : Choice F)
    → ((signal : SignalCandidate F) × (risk : RiskDecision F) × (c ≡ chosen signal risk))
      ⊎ ((reasons : List String) × (c ≡ nothing_chosen reasons))
Choice-cases (chosen signal risk) = inl (signal, risk, refl)
Choice-cases (nothing_chosen reasons) = inr (reasons, refl)

-- `rejected_reasons or […]`
abbrev pub or_dominated : List String → List String
or_dominated [] = "all candidate actions were dominated by NO_TRADE" ∷ []
or_dominated (reason ∷ reasons) = reason ∷ reasons

module _ {F : Type 0} ⦃n : Number F⦄ where
  -- `x` behind all that do not score less: the order of a stable descending sort, for scores that are
  -- no NaN.
  unfoldable pub place_by_score :
      SignalCandidate F → List (SignalCandidate F) → List (SignalCandidate F)
  place_by_score x [] = x ∷ []
  place_by_score x (y ∷ ys) =
      let rest = place_by_score x ys in
      if y.action_score <? x.action_score then x ∷ y ∷ ys else y ∷ rest

  unfoldable pub sorted_from :
      List (SignalCandidate F) → List (SignalCandidate F) → List (SignalCandidate F)
  sorted_from done [] = done
  sorted_from done (x ∷ xs) = sorted_from (place_by_score x done) xs

  -- `sorted(candidates, key=lambda item: item.action_score, reverse=True)`
  unfoldable pub by_score : List (SignalCandidate F) → List (SignalCandidate F)
  unfolding sorted_from
  by_score xs = sorted_from [] xs

  -- The loop over the sorted candidates; an exception of the risk kernel ends it.
  unfoldable pub choose :
      RiskKernel F
      → AccountSnapshot F
      → (reasons : List String) → List (SignalCandidate F)
      → Result (Choice F)
  choose kernel account reasons [] = ok (nothing_chosen reasons)
  choose kernel account reasons (signal ∷ rest) =
      let without = λ (reason : String). choose kernel account (reasons ++ reason ∷ []) rest in
      if signal.action_score ≤? num 0
      then without (concat (signal.strategy_name ∷ ": action_score <= 0" ∷ []))
      else elim (evaluate kernel signal account) [
        | raise e ↦ raise e
        | ok risk ↦
            if is_approved risk.status
            then ok (chosen signal risk)
            else without
                (concat (signal.strategy_name ∷ ": risk rejected (" ∷ risk.reason ∷ ")" ∷ []))
      ]

module _ {F : Type 0} ⦃n : Number F⦄ ⦃f : Float F⦄ where
  -- The loop over the strategies: the scored candidates and the reasons of the others.
  unfoldable pub generate_all :
      FeatureVector F → MarketRegime → List (Strategy F) → List (SignalCandidate F) × List String
  generate_all feature regime [] = ([], [])
  generate_all feature regime (strategy ∷ rest) =
      let (candidates, skips) = generate_all feature regime rest in
      elim (strategy.generate feature) [
        | none ↦ (candidates, strategy.skip_reason feature ∷ skips)
        | some signal ↦ (
          record signal { regime = regime; action_score = score signal feature regime }
              ∷ candidates,
          skips,
        )
      ]

-- `DecisionEngine`; the feature engine, the regime engine and the allocator have no fields.
pub record DecisionEngine (F : Type 0) : Type 0 where
  pub strategies : List (Strategy F)
  pub risk_kernel : RiskKernel F

module _ {F D : Type 0} ⦃n : Number F⦄ ⦃f : Float F⦄ where
  -- The decision that a choice leads to; `clock` is its time of creation.
  unfoldable pub decision_for :
      (clock : ℕ) (decision_id symbol : String) → MarketRegime → Choice F → TradeDecision F D
  decision_for clock decision_id symbol regime (chosen signal risk) =
      trade_execute clock decision_id signal.symbol signal.regime signal.side signal.rationale risk
        signal.action_score (some signal.strategy_name)
  decision_for clock decision_id symbol regime (nothing_chosen reasons) =
      trade_no_trade clock decision_id symbol regime (or_dominated reasons)

  -- `DecisionEngine.decide`; `now` is the reading in `enrich`.
  unfoldable pub decide :
      DecisionEngine F
      → (now clock : ℕ) (decision_id : String) → FeatureVector F
      → AccountSnapshot F
      → Result (TradeDecision F D)
  decide engine now clock decision_id feature account =
      let enriched = enrich now feature in
      let regime = detect enriched in
      let (candidates, skips) = generate_all enriched regime engine.strategies in
      if is_defense regime
      then ok (
          trade_no_trade clock decision_id enriched.symbol regime (
            "regime switched to DEFENSE" ∷ "new entries are disabled until freshness recovers"
            ∷ []))
      else elim candidates [
        | [] ↦ ok (
            trade_no_trade clock decision_id enriched.symbol regime
              ("no strategy produced a valid candidate" ∷ skips))
        | c ∷ cs ↦ elim (choose engine.risk_kernel account [] (by_score (c ∷ cs))) [
          | raise e ↦ raise e
          | ok choice ↦ ok (decision_for clock decision_id enriched.symbol regime choice)
        ]
      ]
