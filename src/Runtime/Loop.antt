-- ===== src/Runtime/Loop.antt =====
-- Induction over a cycle: what every change of the paper account keeps, and what every decision has.
use Prim.Native.Nat.{◌+◌}
use nofx_cats_py.Prelude.{
  ◌≡◌, refl, ℕ, Option, none, some, String, List, [], ◌∷◌, inl, inr, All, string_eq, Option-cases,
  subst,
}
use nofx_cats_py.Result.{Result, ok, ok-injective}
use nofx_cats_py.Raise.{>>=-eq-ok}
use nofx_cats_py.Dict.{lookup}
use nofx_cats_py.Num.{Number, Float, Decimal, Conversion}
use nofx_cats_py.Domain.Account.{AccountState}
use nofx_cats_py.Domain.Signals.{FeatureVector, TradeDecision}
use nofx_cats_py.Exits.Evaluator.{evaluate_exits}
use nofx_cats_py.Paper.State.{PaperFillResult, PaperState, account_state}
use nofx_cats_py.Paper.Fill.{apply_decision}
use nofx_cats_py.Paper.Market.{mark_to_market}
use nofx_cats_py.Paper.Runs.{Call, decided, marked_at, serve}
use nofx_cats_py.Runtime.Symbols.{DecisionRuntime, active_paper, configured_symbols}
use nofx_cats_py.Runtime.Cycle.{
  Formatting, Reading, Cycle, Standing, standing_of, apply_exit, apply_exits, run_exits, open_cycle,
  decide_symbol, follow, trade_symbols, open_symbols, run_cycle,
}

-- `Q` holds of the value, if there is one.
abbrev pub Holds {ℓ κ} : {A : Type ℓ} → (A → Type κ) → Option A → Type κ
Holds Q none = Unit
Holds Q (some a) = Q a

-- Every call of the paper service keeps `Q`.
pub record IsKept {D F : Type 0} ⦃n : Number D⦄ ⦃q : Decimal D⦄ ⦃m : Number F⦄ ⦃f : Float F⦄
    ⦃c : Conversion D F⦄ (Q : PaperState D F → Type 0) : Type 0 where
  pub on_call : (call : Call D F) (p p' : PaperState D F) → serve call p ≡ ok p' → Q p → Q p'
  pub on_read : (now : ℕ) (p : PaperState D F) → Q p → Q (account_state now p)

module _ {D F : Type 0} ⦃n : Number D⦄ ⦃q : Decimal D⦄ ⦃m : Number F⦄ ⦃f : Float F⦄
    ⦃c : Conversion D F⦄ (Q : PaperState D F → Type 0) (kept : IsKept Q) where
  open kept use {on_call, on_read}

  decided-keeps :
      (d : TradeDecision F D) (feature : FeatureVector F) (ts : ℕ) (p : PaperState D F)
      {fill : Option (PaperFillResult D)} {after : PaperState D F}
      → apply_decision d feature ts p ≡ ok (fill, after)
      → Q p
      → Q after
  decided-keeps d feature ts p {fill} {after} run good =
      on_call (decided d feature ts) p after (rw run refl) good

  apply_exit-keeps :
      (cycle : Cycle F) (exit : TradeDecision F D) (p : PaperState D F) {p' : PaperState D F}
      → apply_exit cycle exit p ≡ ok p'
      → Q p
      → Q p'
  unfolding apply_exit
  apply_exit-keeps cycle exit p h good = elim (Option-cases (lookup exit.symbol cycle.features)) [
    | inl missing ↦ subst Q (ok-injective (rw (missing, apply_exit) at h)) good
    | inr (feature, found) ↦
        let ((fill, after), run, same) =
          >>=-eq-ok (apply_decision exit feature cycle.started_at p) _
            (rw (found, apply_exit) at h) in
        subst Q (ok-injective same)
          (on_read cycle.started_at after (decided-keeps exit feature cycle.started_at p run good))
  ]

  apply_exits-keeps :
      (cycle : Cycle F) (exits : List (TradeDecision F D)) (p : PaperState D F)
      {p' : PaperState D F}
      → apply_exits cycle exits p ≡ ok p'
      → Q p
      → Q p'
  unfolding apply_exits
  apply_exits-keeps cycle [] p h good = subst Q (ok-injective h) good
  apply_exits-keeps cycle (exit ∷ exits) p h good =
      let (next, first, later) = >>=-eq-ok (apply_exit cycle exit p) (apply_exits cycle exits) h in
      apply_exits-keeps cycle exits next later (apply_exit-keeps cycle exit p first good)

  run_exits-keeps :
      (r : DecisionRuntime D F) (cycle : Cycle F) (p : PaperState D F) {p' : PaperState D F}
      → run_exits r cycle p ≡ ok p'
      → Q p
      → Q p'
  unfolding run_exits
  run_exits-keeps r cycle p h good = elim (Option-cases r.exit_evaluator) [
    | inl missing ↦ subst Q (ok-injective (rw missing at h)) good
    | inr (config, found) ↦
        apply_exits-keeps cycle
          (evaluate_exits config cycle.features p.position_metadata cycle.started_at cycle.exits_at
            p.state)
          p (rw found at h) good
  ]

  -- With an active paper account a cycle starts from what the marking and the exits leave of it.
  pub open_cycle-active :
      (r : DecisionRuntime D F) (cycle : Cycle F) (reconciled : Result (AccountState D))
      (p : PaperState D F) {s : Standing D F}
      → active_paper r ≡ some p
      → open_cycle r cycle reconciled ≡ ok s
      → Q p
      → (exited : PaperState D F) × (standing_of cycle.started_at exited ≡ s) × Q exited
  unfolding open_cycle
  open_cycle-active r cycle reconciled p active h good =
      let (marked, first, rest) =
        >>=-eq-ok (mark_to_market cycle.features cycle.started_at p) _
          (rw (active, open_cycle) at h) in
      let (exited, second, same) = >>=-eq-ok (run_exits r cycle marked) _ rest in
      (
        exited,
        ok-injective same,
        run_exits-keeps r cycle marked second
            (on_call (marked_at cycle.features cycle.started_at) p marked first good),
      )

  pub open_cycle-keeps :
      (r : DecisionRuntime D F) (cycle : Cycle F) (reconciled : Result (AccountState D))
      {s : Standing D F}
      → open_cycle r cycle reconciled ≡ ok s
      → Holds Q (active_paper r)
      → Holds Q s.book
  unfolding open_cycle
  open_cycle-keeps r cycle reconciled {s} h good = elim (Option-cases (active_paper r)) [
    | inl idle ↦
        let (account, read, same) = >>=-eq-ok reconciled _ (rw (idle, open_cycle) at h) in
        subst (λ (s : Standing D F). Holds Q s.book) (ok-injective same) tt
    | inr (p, active) ↦
        let (exited, same, held) =
          open_cycle-active r cycle reconciled p active h (rw active at good) in
        subst (λ (s : Standing D F). Holds Q s.book) same (on_read cycle.started_at exited held)
  ]

  pub follow-active :
      (ts : ℕ) (d : TradeDecision F D) (feature : FeatureVector F) (s : Standing D F)
      (p : PaperState D F) {s' : Standing D F}
      → s.book ≡ some p
      → follow ts d feature s ≡ ok s'
      → Q p
      → (after : PaperState D F) × (standing_of ts after ≡ s') × Q after
  unfolding follow
  follow-active ts d feature s p active h good =
      let ((fill, after), run, same) =
        >>=-eq-ok (apply_decision d feature ts p) _ (rw active at h) in
      (after, ok-injective same, decided-keeps d feature ts p run good)

  pub follow-keeps :
      (ts : ℕ) (d : TradeDecision F D) (feature : FeatureVector F) (s : Standing D F)
      {s' : Standing D F}
      → follow ts d feature s ≡ ok s'
      → Holds Q s.book
      → Holds Q s'.book
  unfolding follow
  follow-keeps ts d feature s h good = elim (Option-cases s.book) [
    | inl idle ↦ subst (λ (s : Standing D F). Holds Q s.book) (ok-injective (rw idle at h)) tt
    | inr (p, active) ↦
        let (after, same, held) = follow-active ts d feature s p active h (rw active at good) in
        subst (λ (s : Standing D F). Holds Q s.book) same (on_read ts after held)
  ]

module _ {D F : Type 0} ⦃n : Number D⦄ ⦃q : Decimal D⦄ ⦃m : Number F⦄ ⦃f : Float F⦄
    ⦃c : Conversion D F⦄ ⦃spelled : Formatting F⦄ (r : DecisionRuntime D F) (cycle : Cycle F)
    (opened : List String) (paper_dd : F) (P : TradeDecision F D → Type 0)
    (J : Standing D F → Type 0)
    (decided-has : (reading : Reading) (symbol : String) (feature : FeatureVector F)
        (s : Standing D F) (d : TradeDecision F D)
      → lookup symbol cycle.features ≡ some feature
      → J s
      → decide_symbol r cycle opened paper_dd reading symbol feature s ≡ ok d
      → P d)
    (followed-keeps : (d : TradeDecision F D) (feature : FeatureVector F) (s s' : Standing D F)
      → follow cycle.started_at d feature s ≡ ok s'
      → P d
      → J s
      → J s') where
  -- Every decision of the loop has `P`, and what is left of it has `J`.
  pub trade_symbols-All :
      (i : ℕ) (symbols : List String) (s : Standing D F) {decisions : List (TradeDecision F D)}
      {last : Standing D F}
      → trade_symbols r cycle opened paper_dd i symbols s ≡ ok (decisions, last)
      → J s
      → All P decisions × J last
  unfolding trade_symbols
  trade_symbols-All i [] s {decisions} {last} h good =
      let same = ok-injective h in subst (λ end. All P end.0 × J end.1) same (tt, good)
  trade_symbols-All i (symbol ∷ symbols) s {decisions} {last} h good =
      elim (Option-cases (lookup symbol cycle.features)) [
        | inl missing ↦ trade_symbols-All (i + 1) symbols s (rw (missing, trade_symbols) at h) good
        | inr (feature, found) ↦
            let (d, made, rest) =
              >>=-eq-ok (decide_symbol r cycle opened paper_dd (cycle.readings i) symbol feature s)
                _ (rw (found, trade_symbols) at h) in
            let (s', moved, rest') = >>=-eq-ok (follow cycle.started_at d feature s) _ rest in
            let ((decisions', last'), looped, same) =
              >>=-eq-ok (trade_symbols r cycle opened paper_dd (i + 1) symbols s') _ rest' in
            let fine = decided-has (cycle.readings i) symbol feature s d found good made in
            let (all, end) =
              trade_symbols-All (i + 1) symbols s' looped
                (followed-keeps d feature s s' moved fine good) in
            subst (λ end. All P end.0 × J end.1) (ok-injective same) ((fine, all), end)
      ]

module _ {D F : Type 0} ⦃n : Number D⦄ ⦃q : Decimal D⦄ ⦃m : Number F⦄ ⦃f : Float F⦄
    ⦃c : Conversion D F⦄ ⦃spelled : Formatting F⦄ where
  -- A cycle is its first part and its loop.
  pub run_cycle-eq-ok :
      (r : DecisionRuntime D F) (cycle : Cycle F) (reconciled : Result (AccountState D))
      {decisions : List (TradeDecision F D)} {last : Standing D F}
      → run_cycle r cycle reconciled ≡ ok (decisions, last)
      → (s : Standing D F) × (open_cycle r cycle reconciled ≡ ok s)
        × (trade_symbols r cycle
              (open_symbols s)
              s.snapshot.daily_drawdown_pct
              0
              (configured_symbols r)
              s
            ≡ ok (decisions, last))
  unfolding run_cycle
  run_cycle-eq-ok r cycle reconciled h = >>=-eq-ok (open_cycle r cycle reconciled) _ h
