-- ===== src/Runtime/Cycle.antt =====
-- src/cats_py/services/decision_runtime.py: `run_cycle`, behind the requests for the features. The
-- features, the reconciler's result, the random identifiers and the clock's readings are arguments.
use Prim.Native.Nat.{◌+◌}
use nofx_cats_py.Prelude.{
  ℕ, Bool, false, ◌&&◌, Option, none, some, String, List, [], ◌∷◌, concat, lower, any, map, length,
  ltb, string_eq, ◌==◌, is_some, if◌then◌else◌,
}
use nofx_cats_py.Result.{Result, ok}
use nofx_cats_py.Raise.{◌>>=◌}
use nofx_cats_py.Dict.{Dict, lookup}
use nofx_cats_py.Num.{Number, Float, Decimal, Conversion, ◌<?◌, ◌≤?◌, num}
use nofx_cats_py.Domain.Enums.{MarketRegime, unknown_regime, defense}
use nofx_cats_py.Domain.Signals.{FeatureVector, AccountSnapshot, TradeDecision, trade_no_trade}
use nofx_cats_py.Domain.Account.{AccountState, open_positions_of, to_snapshot}
use nofx_cats_py.Risk.Constitution.{default_policy}
use nofx_cats_py.Decision.Engine.{decide}
use nofx_cats_py.Exits.Evaluator.{evaluate_exits}
use nofx_cats_py.Paper.State.{PaperState, account_state, drawdown_pct, is_in_cooldown}
use nofx_cats_py.Paper.Fill.{apply_decision}
use nofx_cats_py.Paper.Market.{mark_to_market}
use nofx_cats_py.Runtime.Symbols.{DecisionRuntime, configured_symbols, active_paper, distinct}

-- `f"{x:.nf}"` and `f"{n}"`, the library's spelling of numbers.
pub record Formatting (F : Type 0) : Type 0 where
  pub fixed_places : ℕ → F → String
  pub spell_count : ℕ → String

-- What one pass of the loop over the symbols reads from outside: the two readings of the clock in
-- `decide` and the random identifier.
pub record Reading : Type 0 where
  pub enriched_at : ℕ
  pub created_at : ℕ
  pub decision_id : String

-- What stays fixed through a cycle. `short_id` is `cycle_id[:8]`.
pub record Cycle (F : Type 0) : Type 0 where
  pub short_id : String
  pub started_at : ℕ
  pub exits_at : ℕ
  pub features : Dict String (FeatureVector F)
  pub readings : ℕ → Reading

-- What the cycle changes: the active paper account, and the local variables `account_state` and
-- `account_snapshot`.
pub record Standing (D F : Type 0) : Type 0 where
  pub book : Option (PaperState D F)
  pub account : AccountState D
  pub snapshot : AccountSnapshot F

module _ {D F : Type 0} ⦃n : Number D⦄ ⦃m : Number F⦄ ⦃f : Float F⦄ ⦃c : Conversion D F⦄ where
  -- `account_state(now=…)` and the snapshot of it.
  abbrev pub standing_of : (now : ℕ) → PaperState D F → Standing D F
  standing_of now p =
      let read = account_state now p in
      record {
        book = some read;
        account = read.state;
        snapshot = to_snapshot (drawdown_pct read) (num 0) now read.state;
      }

module _ {D F : Type 0} ⦃n : Number D⦄ ⦃q : Decimal D⦄ ⦃m : Number F⦄ ⦃f : Float F⦄
    ⦃c : Conversion D F⦄ where
  -- One exit: a decision for a symbol without a feature is passed over. The journal entry reads the
  -- account.
  unfoldable pub apply_exit : Cycle F → TradeDecision F D → PaperState D F → Result (PaperState D F)
  apply_exit cycle exit p = elim (lookup exit.symbol cycle.features) [
    | none ↦ ok p
    | some feature ↦ do
      (fill, after) ← apply_decision exit feature cycle.started_at p
      ok (account_state cycle.started_at after)
  ]

  unfoldable pub apply_exits :
      Cycle F → List (TradeDecision F D) → PaperState D F → Result (PaperState D F)
  unfolding apply_exit
  apply_exits cycle [] p = ok p
  apply_exits cycle (exit ∷ exits) p = do p' ← apply_exit cycle exit p; apply_exits cycle exits p'

  -- The decisions are made before the first of them is applied.
  unfoldable pub run_exits :
      DecisionRuntime D F → Cycle F → PaperState D F → Result (PaperState D F)
  unfolding apply_exits
  run_exits r cycle p = elim r.exit_evaluator [
    | none ↦ ok p
    | some config ↦
        apply_exits cycle
          (evaluate_exits config cycle.features p.position_metadata cycle.started_at cycle.exits_at
            p.state)
          p
  ]

  -- The first part of the cycle: the paper account is marked and its exits are made, or the venue's
  -- account is reconciled.
  unfoldable pub open_cycle :
      DecisionRuntime D F → Cycle F → (reconciled : Result (AccountState D)) → Result (Standing D F)
  unfolding run_exits
  open_cycle r cycle reconciled = elim (active_paper r) [
    | some p ↦ do
      marked ← mark_to_market cycle.features cycle.started_at p
      exited ← run_exits r cycle marked
      ok (standing_of cycle.started_at exited)
    | none ↦ do
      account ← reconciled
      ok (record {
        book = none;
        account = account;
        snapshot = to_snapshot (num 0) (num 0) cycle.started_at account;
      })
  ]

-- `{pos.symbol for pos in … if pos.is_open}`
abbrev pub open_symbols : {D F : Type 0} ⦃n : Number D⦄ → Standing D F → List String
open_symbols s = elim s.book [
  | none ↦ []
  | some p ↦ distinct (map (λ position. position.symbol) (open_positions_of p.state))
]

module _ {D F : Type 0} ⦃m : Number F⦄ ⦃f : Float F⦄ where
  abbrev pub cooling : DecisionRuntime D F → Cycle F → Standing D F → String → Bool
  cooling r cycle s symbol = elim s.book [
    | none ↦ false
    | some p ↦ is_in_cooldown symbol cycle.started_at r.app_config.exit_cooldown_minutes p
  ]

module _ {F D : Type 0} ⦃m : Number F⦄ where
  -- A decision not to trade, with an identifier that says why.
  abbrev pub hold :
      (why short_id : String) → Reading → String → MarketRegime → List String → TradeDecision F D
  hold why short_id reading symbol regime rationale =
      trade_no_trade reading.created_at (concat (why ∷ "-" ∷ lower symbol ∷ "-" ∷ short_id ∷ []))
        symbol regime rationale

module _ {D F : Type 0} ⦃m : Number F⦄ where
  -- With a position open and the account's drawdown past the soft limit of `RiskPolicy()`.
  abbrev pub drawn_down : Standing D F → (opened : List String) → (paper_dd : F) → Bool
  drawn_down s opened paper_dd =
      is_some s.book
      && ltb 0 (length opened)
      && (paper_dd ≤? default_policy.daily_drawdown_soft_pct)

module _ {D F : Type 0} ⦃n : Number D⦄ ⦃q : Decimal D⦄ ⦃m : Number F⦄ ⦃f : Float F⦄
    ⦃c : Conversion D F⦄ where
  -- What a decision does to the paper account, where one is active.
  unfoldable pub follow :
      (started_at : ℕ) → TradeDecision F D → FeatureVector F → Standing D F → Result (Standing D F)
  follow started_at decision feature s = elim s.book [
    | none ↦ ok s
    | some p ↦ do
      (fill, after) ← apply_decision decision feature started_at p
      ok (standing_of started_at after)
  ]

module _ {D F : Type 0} ⦃n : Number D⦄ ⦃q : Decimal D⦄ ⦃m : Number F⦄ ⦃f : Float F⦄
    ⦃c : Conversion D F⦄ ⦃spelled : Formatting F⦄ (r : DecisionRuntime D F) (cycle : Cycle F)
    (opened : List String) (paper_dd : F) where
  -- The decision for one symbol with a feature: the four guards, then the engine.
  unfoldable pub decide_symbol :
      Reading → String → FeatureVector F → Standing D F → Result (TradeDecision F D)
  decide_symbol reading symbol feature s =
      let stay : String → MarketRegime → List String → TradeDecision F D =
        λ why regime rationale. hold why cycle.short_id reading symbol regime rationale in
      if num r.app_config.nofx_stale_kill_seconds <? feature.stale_seconds
      then ok (
          stay "stale" defense (
            "nofx feature stale"
            ∷ concat
                ("feature stale for " ∷ spelled.fixed_places 1 feature.stale_seconds ∷ "s" ∷ [])
            ∷ []))
      else if cooling r cycle s symbol
      then ok (
          stay "cooldown" unknown_regime (
            "exit cooldown active"
            ∷ concat (
                "cooldown "
                ∷ spelled.fixed_places 0 r.app_config.exit_cooldown_minutes
                ∷ "min"
                ∷ [])
            ∷ []))
      else if any (λ other. other == symbol) opened
      then ok (
          stay "already-open" unknown_regime
            ("position already open" ∷ concat (symbol ∷ " has existing position" ∷ []) ∷ []))
      else if drawn_down s opened paper_dd
      then ok (
          stay "drawdown-gate" defense (
            "drawdown soft limit reached"
            ∷ concat (
                "drawdown "
                ∷ spelled.fixed_places 2 paper_dd
                ∷ "% with "
                ∷ spelled.spell_count (length opened)
                ∷ " open positions"
                ∷ [])
            ∷ []))
      else decide r.decision_engine reading.enriched_at reading.created_at reading.decision_id
          feature s.snapshot

  -- The loop over the configured symbols; `i` counts its passes.
  unfoldable pub trade_symbols :
      (i : ℕ) → List String → Standing D F → Result (List (TradeDecision F D) × Standing D F)
  unfolding decide_symbol follow
  trade_symbols i [] s = ok ([], s)
  trade_symbols i (symbol ∷ symbols) s = elim (lookup symbol cycle.features) [
    | none ↦ trade_symbols (i + 1) symbols s
    | some feature ↦ do
      decision ← decide_symbol (cycle.readings i) symbol feature s
      s' ← follow cycle.started_at decision feature s
      (decisions, last) ← trade_symbols (i + 1) symbols s'
      ok (decision ∷ decisions, last)
  ]

module _ {D F : Type 0} ⦃n : Number D⦄ ⦃q : Decimal D⦄ ⦃m : Number F⦄ ⦃f : Float F⦄
    ⦃c : Conversion D F⦄ ⦃spelled : Formatting F⦄ where
  -- `run_cycle`: the decisions, and the account that they leave.
  unfoldable pub run_cycle :
      DecisionRuntime D F
      → Cycle F
      → (reconciled : Result (AccountState D)) → Result (List (TradeDecision F D) × Standing D F)
  unfolding open_cycle trade_symbols configured_symbols
  run_cycle r cycle reconciled = do
    s ← open_cycle r cycle reconciled
    trade_symbols r cycle (open_symbols s) s.snapshot.daily_drawdown_pct 0 (configured_symbols r) s
