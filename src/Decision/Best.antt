-- ===== src/Decision/Best.antt =====
-- What `DecisionEngine.decide` guarantees of the decision that it returns.
use nofx_cats_py.Prelude.{
  ℕ, ◌≡◌, refl, true, false, none, some, String, List, [], ◌∷◌, arith, All, All-Memᴰ, Memᴰ, ◌⊎◌,
  inl, inr,
}
use nofx_cats_py.Result.{ok, Result-cases}
use nofx_cats_py.Num.{Number, Float, IsStrictOrder, num, elapsed}
use nofx_cats_py.Domain.Enums.{defense, is_defense, execute, no_trade}
use nofx_cats_py.Domain.Signals.{
  FeatureVector, SignalCandidate, AccountSnapshot, RiskDecision, TradeDecision, trade_execute,
  trade_no_trade,
}
use nofx_cats_py.Decision.Features.{enrich, detect}
use nofx_cats_py.Decision.Engine.{
  Choice-cases, chosen, DecisionEngine, by_score, choose, generate_all, decision_for, decide,
}
use nofx_cats_py.Decision.Choice.{
  IsApproved, Yields, All-sorted_from, sorted_from-IsSorted, choose-All, sorted_from-All,
  choose-IsApproved, choose-Yields,
}

module _ {F : Type 0} ⦃n : Number F⦄ ⦃f : Float F⦄ (engine : DecisionEngine F) (now : ℕ)
    (feature : FeatureVector F) where
  -- The candidates of the engine's strategies, scored.
  abbrev pub candidates : List (SignalCandidate F)
  candidates = (generate_all (enrich now feature) (detect (enrich now feature)) engine.strategies).0

  abbrev ranked : List (SignalCandidate F)
  ranked = by_score candidates

  -- The candidate that is chosen is one of the scored candidates.
  choose-Memᴰ :
      (account : AccountSnapshot F) {signal : SignalCandidate F} {risk : RiskDecision F}
      → choose engine.risk_kernel account [] ranked ≡ ok (chosen signal risk)
      → Memᴰ signal (candidates)
  unfolding by_score
  choose-Memᴰ account choice =
      let scored = candidates in
      let Scored = λ (c : SignalCandidate F). Memᴰ c scored in
      choose-All engine.risk_kernel account Scored (by_score scored) []
        (sorted_from-All Scored scored [] tt (All-Memᴰ scored)) choice

module _ {F D : Type 0} ⦃n : Number F⦄ ⦃f : Float F⦄ (engine : DecisionEngine F) (now clock : ℕ)
    (decision_id : String) (feature : FeatureVector F) (account : AccountSnapshot F) where
  decide-execute-eq :
      {d : TradeDecision F D}
      → decide engine now clock decision_id feature account ≡ ok d
      → d.status ≡ execute
      → (signal : SignalCandidate F) × (risk : RiskDecision F) × (is_defense
            (detect (enrich now feature))
          ≡ false)
        × (choose engine.risk_kernel account [] (ranked engine now feature)
            ≡ ok (chosen signal risk))
        × (d.symbol ≡ signal.symbol)
        × (d.regime ≡ signal.regime)
        × (d.selected_strategy ≡ some signal.strategy_name)
        × (d.side ≡ some signal.side)
        × (d.risk ≡ some risk)
        × (d.action_score ≡ signal.action_score)
  unfolding decide decision_for trade_execute trade_no_trade
  decide-execute-eq {d} h e =
      let loop = choose engine.risk_kernel account [] (ranked engine now feature) in
      elim (Result-cases loop) [
        | inr (why, raised) ↦ absurd (ground arith)
        | inl (choice, found) ↦ elim (Choice-cases choice) [
          | inr (reasons, none_chosen) ↦ absurd (ground arith)
          | inl (signal, risk, taken) ↦ (
            signal,
            risk,
            ground arith,
            ground arith,
            ground arith,
            ground arith,
            ground arith,
            ground arith,
            ground arith,
            ground arith,
          )
        ]
      ]

  -- A decision to trade is made outside of the DEFENSE regime only. It carries out, with symbol, regime,
  -- side, strategy and score, one of the candidates that the strategies produced, which has a positive
  -- score and which the risk kernel approves, with that verdict as its risk; and no candidate that the
  -- kernel would have approved with a positive score scores more.
  pub decide-IsBest :
      {d : TradeDecision F D} (order : IsStrictOrder F)
      → decide engine now clock decision_id feature account ≡ ok d
      → d.status ≡ execute
      → (signal : SignalCandidate F) × (risk : RiskDecision F) × Memᴰ signal
          (candidates engine now feature)
        × (is_defense (detect (enrich now feature)) ≡ false)
        × IsApproved engine.risk_kernel account signal risk
        × All (Yields engine.risk_kernel account signal) (candidates engine now feature)
        × (d.symbol ≡ signal.symbol)
        × (d.regime ≡ signal.regime)
        × (d.selected_strategy ≡ some signal.strategy_name)
        × (d.side ≡ some signal.side)
        × (d.risk ≡ some risk)
        × (d.action_score ≡ signal.action_score)
  unfolding by_score
  decide-IsBest {d} order h e =
      let kernel = engine.risk_kernel in
      let scored = candidates engine now feature in
      let (signal, risk, calm, choice, symbol, regime, strategy, side, verdict, points) =
        decide-execute-eq h e in
      let sorted = sorted_from-IsSorted order scored [] tt in
      let best = choose-Yields kernel account order (by_score scored) [] sorted choice in
      (
        signal,
        risk,
        choose-Memᴰ engine now feature account choice,
        calm,
        choose-IsApproved kernel account (by_score scored) [] choice,
        (All-sorted_from (Yields kernel account signal) scored [] best).1,
        symbol,
        regime,
        strategy,
        side,
        verdict,
        points,
      )

  -- Whatever the order of the numbers, a decision to trade carries out a candidate with a positive score
  -- that the risk kernel approves, with that verdict as its risk.
  pub decide-IsApproved :
      {d : TradeDecision F D}
      → decide engine now clock decision_id feature account ≡ ok d
      → d.status ≡ execute
      → (signal : SignalCandidate F) × (risk : RiskDecision F) × Memᴰ signal
          (candidates engine now feature)
        × IsApproved engine.risk_kernel account signal risk
        × (d.symbol ≡ signal.symbol)
        × (d.side ≡ some signal.side)
        × (d.risk ≡ some risk)
  unfolding by_score
  decide-IsApproved {d} h e =
      let (signal, risk, calm, choice, symbol, regime, strategy, side, verdict, points) =
        decide-execute-eq h e in
      let approval =
        choose-IsApproved engine.risk_kernel account (by_score (candidates engine now feature)) []
          choice in
      (signal, risk, choose-Memᴰ engine now feature account choice, approval, symbol, side, verdict)

  -- A decision that is no execution is for the feature's symbol.
  pub decide-symbol :
      {d : TradeDecision F D}
      → decide engine now clock decision_id feature account ≡ ok d
      → (d.status ≡ execute) ⊎ (d.symbol ≡ feature.symbol)
  unfolding decide decision_for enrich trade_execute trade_no_trade
  decide-symbol {d} h =
      let loop = choose engine.risk_kernel account [] (ranked engine now feature) in
      elim (Result-cases loop) [
        | inr (why, raised) ↦ ground arith
        | inl (choice, found) ↦ elim (Choice-cases choice) [
          | inr (reasons, none_chosen) ↦ ground arith
          | inl (signal, risk, taken) ↦ ground arith
        ]
      ]

module _ {F : Type 0} ⦃n : Number F⦄ ⦃f : Float F⦄ where
  detect-enrich_stale :
      (order : IsStrictOrder F) (now : ℕ) (feature : FeatureVector F)
      → n.lt (num 45) (num 0) ≡ false
      → n.lt (num 45) (elapsed now feature.ts) ≡ true
      → detect (enrich now feature) ≡ defense
  unfolding enrich detect
  detect-enrich_stale order now feature zero_low old =
      ground (arith, order.trans (num 45) (elapsed now feature.ts) (num 0))

module _ {F D : Type 0} ⦃n : Number F⦄ ⦃f : Float F⦄ where
  -- Where 45 is not below 0, a feature vector more than 45 seconds old leads to no trade, whatever the
  -- account and the strategies, and to no exception.
  pub decide-stale :
      (engine : DecisionEngine F) (now clock : ℕ) (decision_id : String) (feature : FeatureVector F)
      (account : AccountSnapshot F)
      → IsStrictOrder F
      → n.lt (num 45) (num 0) ≡ false
      → n.lt (num 45) (elapsed now feature.ts) ≡ true
      → (d : TradeDecision F D) × (decide engine now clock decision_id feature account ≡ ok d)
        × (d.status ≡ no_trade)
        × (d.side ≡ none)
        × (d.risk ≡ none)
  unfolding decide trade_no_trade
  decide-stale engine now clock decision_id feature account order zero_low old =
      let calm = detect-enrich_stale order now feature zero_low old in
      let d : TradeDecision F D =
        trade_no_trade clock decision_id (enrich now feature).symbol defense (
          "regime switched to DEFENSE" ∷ "new entries are disabled until freshness recovers"
          ∷ []) in
      (d, ground (arith, calm), refl, refl, refl)
