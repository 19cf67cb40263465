-- ===== src/Runtime/Safety.antt =====
-- What a whole cycle keeps of the paper account, and how many decisions it makes.
use Prim.Native.Nat.{◌+◌}
use nofx_cats_py.Prelude.{
  ◌≡◌, sym, ap, ◌∙◌, ℕ, suc, String, List, [], ◌∷◌, inl, inr, string_eq, Option-cases, length,
  select,
}
use nofx_cats_py.Result.{Result, ok, ok-injective}
use nofx_cats_py.Raise.{>>=-eq-ok}
use nofx_cats_py.Dict.{lookup, contains}
use nofx_cats_py.Num.{Number, Float, Decimal, Conversion}
use nofx_cats_py.Domain.Account.{AccountState}
use nofx_cats_py.Domain.Signals.{TradeDecision}
use nofx_cats_py.Paper.Books.{account_state-IsSynced}
use nofx_cats_py.Paper.Runs.{IsConsistent, serve-IsConsistent, account_state-positions}
use nofx_cats_py.Runtime.Symbols.{DecisionRuntime, active_paper, configured_symbols}
use nofx_cats_py.Runtime.Cycle.{
  Formatting, Cycle, Standing, decide_symbol, follow, trade_symbols, open_symbols, run_cycle,
}
use nofx_cats_py.Runtime.Loop.{
  Holds, IsKept, open_cycle-keeps, follow-keeps, trade_symbols-All, run_cycle-eq-ok,
}

module _ {D F : Type 0} ⦃n : Number D⦄ ⦃q : Decimal D⦄ ⦃m : Number F⦄ ⦃f : Float F⦄
    ⦃c : Conversion D F⦄ where
  IsConsistent-IsKept : IsKept {D = D} {F = F} IsConsistent
  IsConsistent-IsKept = record {
    on_call = λ call p p' done good. serve-IsConsistent call p done good;
    on_read = λ now p good.
        (account_state-IsSynced now p good.0, rw (account_state-positions now p) good.1);
  }

  module _ ⦃spelled : Formatting F⦄ (r : DecisionRuntime D F) (cycle : Cycle F)
      (reconciled : Result (AccountState D)) {decisions : List (TradeDecision F D)}
      {last : Standing D F} (done : run_cycle r cycle reconciled ≡ ok (decisions, last)) where
    -- A cycle that raises nothing keeps the paper account consistent: its wallet agrees with the books,
    -- each position stands under its own key, and each direction is the sign of the quantity.
    pub run_cycle-IsConsistent : Holds IsConsistent (active_paper r) → Holds IsConsistent last.book
    run_cycle-IsConsistent good =
        let (s, opened, looped) = run_cycle-eq-ok r cycle reconciled done in
        (trade_symbols-All r cycle (open_symbols s) s.snapshot.daily_drawdown_pct (λ d. Unit)
          (λ s. Holds IsConsistent s.book) (λ reading symbol feature s d found held made. tt)
          (λ d feature s s' moved fine held.
            follow-keeps IsConsistent IsConsistent-IsKept cycle.started_at d feature s moved held)
          0 (configured_symbols r) s looped
          (open_cycle-keeps IsConsistent IsConsistent-IsKept r cycle reconciled opened good)).1

module _ {D F : Type 0} ⦃n : Number D⦄ ⦃q : Decimal D⦄ ⦃m : Number F⦄ ⦃f : Float F⦄
    ⦃c : Conversion D F⦄ where
  module _ ⦃spelled : Formatting F⦄ (r : DecisionRuntime D F) (cycle : Cycle F) where
    trade_symbols-length :
        (opened : List String) (paper_dd : F) (i : ℕ) (symbols : List String) (s : Standing D F)
        {decisions : List (TradeDecision F D)} {last : Standing D F}
        → trade_symbols r cycle opened paper_dd i symbols s ≡ ok (decisions, last)
        → length decisions ≡ length (select (λ symbol. contains symbol cycle.features) symbols)
    unfolding trade_symbols
    trade_symbols-length opened paper_dd i [] s {decisions} {last} h =
        ap (λ end. length end.0) (sym (ok-injective h))
    trade_symbols-length opened paper_dd i (symbol ∷ symbols) s {decisions} {last} h =
        elim (Option-cases (lookup symbol cycle.features)) [
          | inl missing ↦ rw missing (
              trade_symbols-length opened paper_dd (i + 1) symbols s
                (rw (missing, trade_symbols) at h))
          | inr (feature, found) ↦
              let (d, made, rest) =
                >>=-eq-ok
                  (decide_symbol r cycle opened paper_dd (cycle.readings i) symbol feature s) _
                  (rw (found, trade_symbols) at h) in
              let (s', moved, rest') = >>=-eq-ok (follow cycle.started_at d feature s) _ rest in
              let ((decisions', last'), looped, same) =
                >>=-eq-ok (trade_symbols r cycle opened paper_dd (i + 1) symbols s') _ rest' in
              let count : length decisions ≡ suc (length decisions') =
                ap (λ end. length end.0) (sym (ok-injective same)) in
              rw found
                (count ∙ ap suc (trade_symbols-length opened paper_dd (i + 1) symbols s' looped))
        ]

    -- A cycle that raises nothing makes one decision for each configured symbol that has a feature.
    pub run_cycle-length :
        (reconciled : Result (AccountState D)) {decisions : List (TradeDecision F D)}
        {last : Standing D F}
        → run_cycle r cycle reconciled ≡ ok (decisions, last)
        → length decisions
          ≡ length (select (λ symbol. contains symbol cycle.features) (configured_symbols r))
    run_cycle-length reconciled done =
        let (s, opened, looped) = run_cycle-eq-ok r cycle reconciled done in
        trade_symbols-length (open_symbols s) s.snapshot.daily_drawdown_pct 0 (configured_symbols r)
          s looped
