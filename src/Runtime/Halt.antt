-- ===== src/Runtime/Halt.antt =====
-- A cycle on an account that must not trade.
use nofx_cats_py.Prelude.{
  ◌≡◌, ◌≢◌, refl, sym, ap, ◌∙◌, ℕ, true, none, some, List, All, arith, subst,
}
use nofx_cats_py.Result.{Result, ok, ok-injective}
use nofx_cats_py.Num.{Number, Float, Decimal, Conversion, num}
use nofx_cats_py.Domain.Enums.{execute}
use nofx_cats_py.Domain.Account.{AccountState, to_snapshot}
use nofx_cats_py.Domain.Signals.{FeatureVector, TradeDecision}
use nofx_cats_py.Risk.Gates.{must_halt}
use nofx_cats_py.Paper.State.{PaperState, account_state}
use nofx_cats_py.Paper.Switch.{IsStopped, serve-IsStopped, account_state-IsStopped}
use nofx_cats_py.Runtime.Symbols.{DecisionRuntime, active_paper, configured_symbols}
use nofx_cats_py.Runtime.Cycle.{
  Formatting, Cycle, Standing, standing_of, open_cycle, follow, open_symbols, run_cycle,
}
use nofx_cats_py.Runtime.Guards.{decide_symbol-execute, decide-halted}
use nofx_cats_py.Runtime.Loop.{
  IsKept, open_cycle-active, follow-active, trade_symbols-All, run_cycle-eq-ok,
}

module _ {D F : Type 0} ⦃n : Number D⦄ ⦃q : Decimal D⦄ ⦃m : Number F⦄ ⦃f : Float F⦄
    ⦃c : Conversion D F⦄ where
  IsStopped-IsKept : IsKept {D = D} {F = F} IsStopped
  IsStopped-IsKept = record {
    on_call = λ call p p' done on. serve-IsStopped call p done on;
    on_read = λ now p on. account_state-IsStopped now p on;
  }

  -- The paper account is the one that the snapshot shows, and its kill switch is on.
  abbrev StandsStill : Standing D F → Type 0
  StandsStill s =
      (s.snapshot.kill_switch_active ≡ true)
      × ((p : PaperState D F) × (s.book ≡ some p) × IsStopped p)

  standing_of-StandsStill :
      (now : ℕ) (p : PaperState D F) → IsStopped p → StandsStill (standing_of now p)
  unfolding to_snapshot
  standing_of-StandsStill now p on =
      let still = account_state-IsStopped now p on in (still, (account_state now p, refl, still))

  follow-StandsStill :
      (ts : ℕ) (d : TradeDecision F D) (feature : FeatureVector F) (s s' : Standing D F)
      → follow ts d feature s ≡ ok s'
      → StandsStill s
      → StandsStill s'
  follow-StandsStill ts d feature s s' moved (shown, (p, active, on)) =
      let (after, same, still) =
        follow-active IsStopped IsStopped-IsKept ts d feature s p active moved on in
      subst StandsStill same (standing_of-StandsStill ts after still)

  abbrev reconciled_at : (now : ℕ) → AccountState D → Standing D F
  reconciled_at now account = record {
    book = none;
    account = account;
    snapshot = to_snapshot (num 0) (num 0) now account;
  }

  open_cycle-idle :
      (r : DecisionRuntime D F) (cycle : Cycle F) (reconciled : Result (AccountState D))
      (account : AccountState D) {s : Standing D F}
      → active_paper r ≡ none
      → reconciled ≡ ok account
      → open_cycle r cycle reconciled ≡ ok s
      → s ≡ reconciled_at cycle.started_at account
  unfolding open_cycle
  open_cycle-idle r cycle reconciled account idle read h =
      sym (ok-injective (rw (idle, read, open_cycle) at h))

  follow-idle :
      (ts : ℕ) (d : TradeDecision F D) (feature : FeatureVector F) (s : Standing D F)
      {s' : Standing D F}
      → s.book ≡ none
      → follow ts d feature s ≡ ok s'
      → s' ≡ s
  unfolding follow
  follow-idle ts d feature s idle moved = ground arith

  module _ ⦃spelled : Formatting F⦄ (r : DecisionRuntime D F) (cycle : Cycle F)
      (reconciled : Result (AccountState D)) where
    -- Once the kill switch of the paper account is on, a cycle that raises nothing executes nothing for
    -- any of its symbols, exits apart, and leaves the switch on.
    pub run_cycle-IsStopped :
        (p : PaperState D F) {decisions : List (TradeDecision F D)} {last : Standing D F}
        → run_cycle r cycle reconciled ≡ ok (decisions, last)
        → active_paper r ≡ some p
        → IsStopped p
        → All (λ d. d.status ≢ execute) decisions
          × (last.snapshot.kill_switch_active ≡ true)
          × ((p' : PaperState D F) × (last.book ≡ some p') × IsStopped p')
    run_cycle-IsStopped p done active on =
        let (s, opened, looped) = run_cycle-eq-ok r cycle reconciled done in
        let (exited, same, still) =
          open_cycle-active IsStopped IsStopped-IsKept r cycle reconciled p active opened on in
        let (all, (shown, held)) =
          trade_symbols-All r cycle (open_symbols s) s.snapshot.daily_drawdown_pct
            (λ d. d.status ≢ execute) StandsStill
            (λ reading symbol feature s' d found held made e.
              let (fresh, warm, free, shallow, engine) =
                decide_symbol-execute r cycle (open_symbols s) s.snapshot.daily_drawdown_pct reading
                  symbol feature s' made e in
              decide-halted r.decision_engine reading.enriched_at reading.created_at
                reading.decision_id feature s'.snapshot (rw (held.0) refl) engine e)
            (λ d feature s s' moved fine held.
              follow-StandsStill cycle.started_at d feature s s' moved held)
            0 (configured_symbols r) s looped
            (subst StandsStill same (standing_of-StandsStill cycle.started_at exited still)) in
        (all, shown, held)

    -- Without a paper account, a cycle whose reconciled account meets a halting condition of the risk
    -- constitution executes nothing, and leaves that account as it is.
    pub run_cycle-halted :
        (account : AccountState D) {decisions : List (TradeDecision F D)} {last : Standing D F}
        → run_cycle r cycle reconciled ≡ ok (decisions, last)
        → active_paper r ≡ none
        → reconciled ≡ ok account
        → must_halt r.decision_engine.risk_kernel.policy
            (to_snapshot (num 0) (num 0) cycle.started_at account)
          ≡ true
        → All (λ d. d.status ≢ execute) decisions × (last.account ≡ account)
    run_cycle-halted account done idle read halt =
        let (s, opened, looped) = run_cycle-eq-ok r cycle reconciled done in
        let calm = reconciled_at cycle.started_at account in
        let same = open_cycle-idle r cycle reconciled account idle read opened in
        let (all, end) =
          trade_symbols-All r cycle (open_symbols s) s.snapshot.daily_drawdown_pct
            (λ d. d.status ≢ execute) (λ s'. s' ≡ calm)
            (λ reading symbol feature s' d found held made e.
              let (fresh, warm, free, shallow, engine) =
                decide_symbol-execute r cycle (open_symbols s) s.snapshot.daily_drawdown_pct reading
                  symbol feature s' made e in
              decide-halted r.decision_engine reading.enriched_at reading.created_at
                reading.decision_id feature s'.snapshot (rw held halt) engine e)
            (λ d feature s s' moved fine held.
              follow-idle cycle.started_at d feature s (rw held refl) moved ∙ held)
            0 (configured_symbols r) s looped same in
        (all, ap (λ (s : Standing D F). s.account) end)
