-- ===== src/Paper/Switch.antt =====
-- The kill switch of the paper account over whole runs.
use nofx_cats_py.Prelude.{
  ◌≡◌, sym, ℕ, true, String, List, [], ◌∷◌, inl, inr, Bool-cases, arith, subst,
}
use nofx_cats_py.Result.{ok, ok-injective}
use nofx_cats_py.Raise.{>>=-eq-ok}
use nofx_cats_py.Dict.{Dict}
use nofx_cats_py.Num.{Number, Float, Decimal, Conversion, ◌=?◌, ◌+◌, num}
use nofx_cats_py.Domain.Account.{
  activate_kill_switch, record_user_stream_event, mark_reconciled, upsert_position, total_equity,
}
use nofx_cats_py.Domain.Signals.{FeatureVector, TradeDecision, RiskDecision}
use nofx_cats_py.Paper.State.{
  PaperState, compared, usdt_balance, settle, sync_balance, account_state,
}
use nofx_cats_py.Paper.Fill.{Fill, track_entry, apply_decision}
use nofx_cats_py.Paper.Market.{marked_state, settle_funding, mark_to_market}
use nofx_cats_py.Paper.Books.{booked, apply_fill-eq-ok}
use nofx_cats_py.Paper.Outcome.{apply_decision-cases}
use nofx_cats_py.Paper.Runs.{Call, decided, marked_at, serve, serve_all}

-- The account's kill switch is on.
abbrev pub IsStopped : {D F : Type 0} → PaperState D F → Type 0
IsStopped p = p.state.kill_switch_active ≡ true

module _ {D F : Type 0} ⦃n : Number D⦄ ⦃q : Decimal D⦄ where
  sync_balance-IsStopped :
      (p : PaperState D F) {s : PaperState D F} → sync_balance p ≡ ok s → IsStopped p → IsStopped s
  unfolding sync_balance activate_kill_switch
  sync_balance-IsStopped p {s} h on =
      let (b, found, done) = >>=-eq-ok (usdt_balance p) (λ b. ok (settle b p)) h in
      subst IsStopped (ok-injective done) (ground arith)

  pub account_state-IsStopped :
      (ts : ℕ) (p : PaperState D F) → IsStopped p → IsStopped (account_state ts p)
  unfolding account_state record_user_stream_event mark_reconciled
  account_state-IsStopped ts p on = on

module _ {D F : Type 0} ⦃n : Number D⦄ ⦃q : Decimal D⦄ ⦃m : Number F⦄ ⦃f : Float F⦄
    ⦃c : Conversion D F⦄ where
  settle_funding-IsStopped :
      (delta : D) (p : PaperState D F) {s : PaperState D F}
      → settle_funding delta p ≡ ok s
      → IsStopped p
      → IsStopped s
  settle_funding-IsStopped delta p h on = elim (Bool-cases (delta =? num 0)) [
    | inl zero ↦ subst IsStopped (ok-injective (rw zero at h)) on
    | inr paid ↦
        sync_balance-IsStopped (record p { funding_pnl = p.funding_pnl + delta }) (rw paid at h) on
  ]

  booked-IsStopped :
      (d : TradeDecision F D) (risk : RiskDecision F) (ts : ℕ) (fill : Fill D) (p : PaperState D F)
      → IsStopped p
      → IsStopped (booked d risk ts fill p)
  unfolding track_entry upsert_position
  booked-IsStopped d risk ts fill p on = ground arith

  marked_state-IsStopped :
      (features : Dict String (FeatureVector F)) (ts : ℕ) (p : PaperState D F)
      → IsStopped p
      → IsStopped (marked_state features ts p).0
  unfolding marked_state
  marked_state-IsStopped features ts p on = on

  mark_to_market-IsStopped :
      (features : Dict String (FeatureVector F)) (ts : ℕ) (p : PaperState D F) {p' : PaperState D F}
      → mark_to_market features ts p ≡ ok p'
      → IsStopped p
      → IsStopped p'
  unfolding mark_to_market
  mark_to_market-IsStopped features ts p done on =
      let (loop, delta) = marked_state features ts p in
      let (settled, first, next) = >>=-eq-ok (settle_funding delta loop) _ done in
      let (seen, numbers, rest) = >>=-eq-ok (compared (total_equity settled.state)) _ next in
      let (b, found, same) = >>=-eq-ok (usdt_balance (account_state ts settled)) _ rest in
      subst IsStopped (ok-injective same) (
        account_state-IsStopped ts settled
          (settle_funding-IsStopped delta loop first (marked_state-IsStopped features ts p on)))

  pub serve-IsStopped :
      (call : Call D F) (p : PaperState D F) {p' : PaperState D F}
      → serve call p ≡ ok p'
      → IsStopped p
      → IsStopped p'
  serve-IsStopped (marked_at features ts) p h on = mark_to_market-IsStopped features ts p h on
  serve-IsStopped (decided d feature ts) p h on =
      let ((r, after), run, same) = >>=-eq-ok (apply_decision d feature ts p) _ h in
      subst IsStopped (ok-injective same) (elim (apply_decision-cases d feature ts p run) [
        | inl (why, none_filled, kept) ↦ subst IsStopped (sym kept) on
        | inr (risk, fill, done) ↦
            let (synced, first, last) = apply_fill-eq-ok d risk ts fill p done in
            subst IsStopped last (
              account_state-IsStopped ts synced (
                sync_balance-IsStopped (booked d risk ts fill p) first
                  (booked-IsStopped d risk ts fill p on)))
      ])

  -- A kill switch that is on stays on through any run of decisions and markings that raises nothing.
  pub serve_all-IsStopped :
      (calls : List (Call D F)) (p : PaperState D F) {p' : PaperState D F}
      → serve_all calls p ≡ ok p'
      → IsStopped p
      → IsStopped p'
  serve_all-IsStopped [] p h on = subst IsStopped (ok-injective h) on
  serve_all-IsStopped (call ∷ calls) p h on =
      let (next, first, rest) = >>=-eq-ok (serve call p) (serve_all calls) h in
      serve_all-IsStopped calls next rest (serve-IsStopped call p first on)
