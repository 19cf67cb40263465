-- ===== src/Runtime/Trades.antt =====
-- The loop of a cycle as a relation: what each of its decisions was made on, and what followed it.
use Prim.Native.Nat.{◌+◌}
use nofx_cats_py.Prelude.{
  ◌≡◌, ◌≢◌, ◌∙◌, ℕ, false, none, some, String, List, [], ◌∷◌, ◌⊎◌, inl, inr, any, All, All-at, Memᴰ,
  string_eq, ◌==◌, Bool-cases, Option-cases, arith, subst,
}
use nofx_cats_py.Result.{Result, ok, ok-injective}
use nofx_cats_py.Raise.{>>=-eq-ok}
use nofx_cats_py.Dict.{Dict, lookup}
use nofx_cats_py.Num.{Number, Float, Decimal, Conversion, ◌<?◌, num}
use nofx_cats_py.Domain.Enums.{MarketRegime, execute, is_execute}
use nofx_cats_py.Domain.Account.{AccountState}
use nofx_cats_py.Domain.Signals.{
  FeatureVector, SignalCandidate, RiskDecision, TradeDecision, trade_no_trade,
}
use nofx_cats_py.Decision.Features.{enrich}
use nofx_cats_py.Decision.Strategies.{Strategy, trend_generate, crowding_generate, range_generate}
use nofx_cats_py.Decision.Skips.{trend_following, crowding_reversal, range_reversion}
use nofx_cats_py.Decision.Engine.{DecisionEngine, generate_all, decide}
use nofx_cats_py.Decision.Choice.{IsApproved}
use nofx_cats_py.Decision.Best.{candidates, decide-IsApproved, decide-symbol}
use nofx_cats_py.Runtime.Symbols.{DecisionRuntime, configured_symbols}
use nofx_cats_py.Runtime.Cycle.{
  Formatting, Reading, Cycle, Standing, cooling, drawn_down, decide_symbol, follow, trade_symbols,
  open_cycle, open_symbols, run_cycle,
}
use nofx_cats_py.Runtime.Guards.{decide_symbol-execute}
use nofx_cats_py.Runtime.Loop.{run_cycle-eq-ok}

module _ {F : Type 0} where
  -- The signals of a strategy are for the symbol of the feature that they are made from.
  abbrev pub KeepsSymbol : Strategy F → Type 0
  KeepsSymbol strategy =
      (feature : FeatureVector F) (signal : SignalCandidate F)
      → strategy.generate feature ≡ some signal
      → signal.symbol ≡ feature.symbol

  -- Each feature stands under its own symbol.
  abbrev pub AreKeyed : Dict String (FeatureVector F) → Type 0
  AreKeyed features = All (λ (e : String × FeatureVector F). e.1.symbol ≡ e.0) features

  lookup-AreKeyed :
      (symbol : String) (features : Dict String (FeatureVector F)) {feature : FeatureVector F}
      → AreKeyed features
      → lookup symbol features ≡ some feature
      → feature.symbol ≡ symbol
  unfolding lookup
  lookup-AreKeyed symbol [] keyed found = cc
  lookup-AreKeyed symbol ((key, feature) ∷ rest) (here, keyed) found =
      elim (Bool-cases (key == symbol)) [
        | inl same ↦ ground (arith, same, (string_eq.beq_iff key symbol).0 same)
        | inr other ↦ lookup-AreKeyed symbol rest keyed (rw other at found)
      ]

module _ {F : Type 0} ⦃n : Number F⦄ where
  -- The strategies of the program keep the symbol.
  pub trend_following-KeepsSymbol : KeepsSymbol {F = F} trend_following
  unfolding trend_generate
  trend_following-KeepsSymbol feature signal h = ground arith

  pub crowding_reversal-KeepsSymbol : KeepsSymbol {F = F} crowding_reversal
  unfolding crowding_generate
  crowding_reversal-KeepsSymbol feature signal h = ground arith

  pub range_reversion-KeepsSymbol : KeepsSymbol {F = F} range_reversion
  unfolding range_generate
  range_reversion-KeepsSymbol feature signal h = ground arith

module _ {F : Type 0} ⦃n : Number F⦄ ⦃f : Float F⦄ where
  generate_all-symbol :
      (feature : FeatureVector F) (regime : MarketRegime) (strategies : List (Strategy F))
      → All KeepsSymbol strategies
      → All
          (λ (c : SignalCandidate F). c.symbol ≡ feature.symbol)
          (generate_all feature regime strategies).0
  unfolding generate_all
  generate_all-symbol feature regime [] keeps = tt
  generate_all-symbol feature regime (strategy ∷ rest) (here, keeps) =
      elim (Option-cases (strategy.generate feature)) [
        | inl silent ↦ rw (silent, generate_all) (generate_all-symbol feature regime rest keeps)
        | inr (signal, made) ↦
            rw (made, generate_all)
              (here feature signal made, generate_all-symbol feature regime rest keeps)
      ]

  candidates-symbol :
      (engine : DecisionEngine F) (now : ℕ) (feature : FeatureVector F) {signal : SignalCandidate F}
      → All KeepsSymbol engine.strategies
      → Memᴰ signal (candidates engine now feature)
      → signal.symbol ≡ feature.symbol
  unfolding enrich
  candidates-symbol engine now feature keeps member =
      All-at (λ (c : SignalCandidate F). c.symbol ≡ feature.symbol) (candidates engine now feature)
        (generate_all-symbol (enrich now feature) _ engine.strategies keeps) member

module _ {D F : Type 0} ⦃n : Number D⦄ ⦃q : Decimal D⦄ ⦃m : Number F⦄ ⦃f : Float F⦄
    ⦃c : Conversion D F⦄ (r : DecisionRuntime D F) (cycle : Cycle F) (opened : List String)
    (paper_dd : F) where
  -- What an execution for `symbol` in the pass `i` stands on: a feature that is not stale, no cooldown, no
  -- open position, no drawdown past the soft limit, and one of the candidates that the strategies
  -- produce from the feature, with a positive score and the risk kernel's approval on the account `s`.
  abbrev pub Passed : ℕ → String → FeatureVector F → Standing D F → TradeDecision F D → Type 0
  Passed i symbol feature s d =
      ((num r.app_config.nofx_stale_kill_seconds <? feature.stale_seconds) ≡ false)
      × (cooling r cycle s symbol ≡ false)
      × (any (λ other. other == symbol) opened ≡ false)
      × (drawn_down s opened paper_dd ≡ false)
      × ((signal : SignalCandidate F) × (risk : RiskDecision F) × Memᴰ signal
            (candidates r.decision_engine (cycle.readings i).enriched_at feature)
          × IsApproved r.decision_engine.risk_kernel s.snapshot signal risk
          × (d.side ≡ some signal.side)
          × (d.risk ≡ some risk))

  -- `Trades i symbols s decisions last`: from the account `s`, with `symbols` left in the pass `i`, the
  -- loop makes `decisions` and ends with `last`. Each decision is made on the account that the one
  -- before has left.
  pub data Trades
      : ℕ → List String → Standing D F → List (TradeDecision F D) → Standing D F → Type 0 where
    done : {i : ℕ} {s : Standing D F} → Trades i [] s [] s
    skipped :
        {i : ℕ} {symbol : String} {symbols : List String} {s last : Standing D F}
        {decisions : List (TradeDecision F D)}
        → lookup symbol cycle.features ≡ none
        → Trades (i + 1) symbols s decisions last
        → Trades i (symbol ∷ symbols) s decisions last
    decided :
        {i : ℕ} {symbol : String} {symbols : List String} {s s' last : Standing D F}
        {d : TradeDecision F D} {decisions : List (TradeDecision F D)} (feature : FeatureVector F)
        → lookup symbol cycle.features ≡ some feature
        → d.symbol ≡ symbol
        → (d.status ≢ execute) ⊎ Passed i symbol feature s d
        → follow cycle.started_at d feature s ≡ ok s'
        → Trades (i + 1) symbols s' decisions last
        → Trades i (symbol ∷ symbols) s (d ∷ decisions) last

module _ {D F : Type 0} ⦃n : Number D⦄ ⦃q : Decimal D⦄ ⦃m : Number F⦄ ⦃f : Float F⦄
    ⦃c : Conversion D F⦄ ⦃spelled : Formatting F⦄ (r : DecisionRuntime D F) (cycle : Cycle F)
    (keeps : All KeepsSymbol r.decision_engine.strategies) (keyed : AreKeyed cycle.features) where
  status-cases : (d : TradeDecision F D) → (d.status ≡ execute) ⊎ (d.status ≢ execute)
  status-cases d = elim (Bool-cases (is_execute d.status)) [
    | inl traded ↦ inl (ground arith)
    | inr idle ↦ inr (λ e. ground arith)
  ]

  module _ (opened : List String) (paper_dd : F) where
    -- A guard's decision is for the symbol; the others are the engine's.
    decide_symbol-cases :
        (reading : Reading) (symbol : String) (feature : FeatureVector F) (s : Standing D F)
        {d : TradeDecision F D}
        → decide_symbol r cycle opened paper_dd reading symbol feature s ≡ ok d
        → (d.symbol ≡ symbol)
          ⊎ (decide r.decision_engine reading.enriched_at reading.created_at reading.decision_id
                feature s.snapshot
              ≡ ok d)
    unfolding decide_symbol trade_no_trade
    decide_symbol-cases reading symbol feature s h = ground arith

    decide_symbol-Passed :
        (i : ℕ) (symbol : String) (feature : FeatureVector F) (s : Standing D F)
        {d : TradeDecision F D}
        → lookup symbol cycle.features ≡ some feature
        → decide_symbol r cycle opened paper_dd (cycle.readings i) symbol feature s ≡ ok d
        → (d.symbol ≡ symbol)
          × ((d.status ≢ execute) ⊎ Passed r cycle opened paper_dd i symbol feature s d)
    decide_symbol-Passed i symbol feature s {d} found made =
        let reading = cycle.readings i in
        let own = lookup-AreKeyed symbol cycle.features keyed found in
        elim (status-cases d) [
          | inr idle ↦ (
            elim (decide_symbol-cases reading symbol feature s made) [
              | inl same ↦ same
              | inr engine ↦
                  elim (decide-symbol r.decision_engine reading.enriched_at reading.created_at
                    reading.decision_id feature s.snapshot engine) [
                      | inl traded ↦ absurd (idle traded)
                      | inr same ↦ same ∙ own
                    ]
            ],
            inl idle,
          )
          | inl e ↦
              let (fresh, warm, free, shallow, engine) =
                decide_symbol-execute r cycle opened paper_dd reading symbol feature s made e in
              let (signal, risk, member, approval, name, side, verdict) =
                decide-IsApproved r.decision_engine reading.enriched_at reading.created_at
                  reading.decision_id feature s.snapshot engine e in
              (
                name
                    ∙ candidates-symbol r.decision_engine reading.enriched_at feature keeps member
                    ∙ own,
                inr (fresh, warm, free, shallow, (signal, risk, member, approval, side, verdict)),
              )
        ]

    trade_symbols-Trades :
        (i : ℕ) (symbols : List String) (s : Standing D F) {decisions : List (TradeDecision F D)}
        {last : Standing D F}
        → trade_symbols r cycle opened paper_dd i symbols s ≡ ok (decisions, last)
        → Trades r cycle opened paper_dd i symbols s decisions last
    unfolding trade_symbols
    trade_symbols-Trades i [] s {decisions} {last} h =
        subst
          (λ (end : List (TradeDecision F D) × Standing D F).
            Trades r cycle opened paper_dd i [] s end.0 end.1)
          (ok-injective h) done
    trade_symbols-Trades i (symbol ∷ symbols) s {decisions} {last} h =
        elim (Option-cases (lookup symbol cycle.features)) [
          | inl missing ↦
              skipped missing
                (trade_symbols-Trades (i + 1) symbols s (rw (missing, trade_symbols) at h))
          | inr (feature, found) ↦
              let (d, made, rest) =
                >>=-eq-ok
                  (decide_symbol r cycle opened paper_dd (cycle.readings i) symbol feature s) _
                  (rw (found, trade_symbols) at h) in
              let (s', moved, rest') = >>=-eq-ok (follow cycle.started_at d feature s) _ rest in
              let ((decisions', last'), looped, same) =
                >>=-eq-ok (trade_symbols r cycle opened paper_dd (i + 1) symbols s') _ rest' in
              let (own, passed) = decide_symbol-Passed i symbol feature s found made in
              subst
                (λ (end : List (TradeDecision F D) × Standing D F).
                  Trades r cycle opened paper_dd i (symbol ∷ symbols) s end.0 end.1)
                (ok-injective same)
                (decided feature found own passed moved
                  (trade_symbols-Trades (i + 1) symbols s' looped))
        ]

  pub run_cycle-Trades :
      (reconciled : Result (AccountState D)) {decisions : List (TradeDecision F D)}
      {last : Standing D F}
      → run_cycle r cycle reconciled ≡ ok (decisions, last)
      → (s : Standing D F) × (open_cycle r cycle reconciled ≡ ok s)
        × Trades r cycle
            (open_symbols s)
            s.snapshot.daily_drawdown_pct
            0
            (configured_symbols r)
            s
            decisions
            last
  run_cycle-Trades reconciled h =
      let (s, opened, looped) = run_cycle-eq-ok r cycle reconciled h in
      (
        s,
        opened,
        trade_symbols-Trades (open_symbols s) s.snapshot.daily_drawdown_pct 0 (configured_symbols r)
            s looped,
      )
