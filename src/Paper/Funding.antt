-- ===== src/Paper/Funding.antt =====
-- `PaperExecutionService.mark_to_market` and the books.
use nofx_cats_py.Prelude.{ℕ, ◌≡◌, inl, inr, String, string_eq, pair_eq, Bool-cases, subst}
use nofx_cats_py.Result.{ok, ok-injective}
use nofx_cats_py.Raise.{>>=-eq-ok}
use nofx_cats_py.Dict.{Dict}
use nofx_cats_py.Num.{Number, Float, Decimal, Conversion, ◌+◌, ◌=?◌, num}
use nofx_cats_py.Domain.Account.{total_equity}
use nofx_cats_py.Domain.Signals.{FeatureVector}
use nofx_cats_py.Paper.State.{PaperState, usdt_balance, compared, account_state}
use nofx_cats_py.Paper.Market.{settle_funding, mark_to_market, marked_state}
use nofx_cats_py.Paper.Books.{IsSynced, account_state-IsSynced, sync_balance-IsSynced}

module _ {D F : Type 0} ⦃n : Number D⦄ ⦃q : Decimal D⦄ ⦃m : Number F⦄ ⦃f : Float F⦄
    ⦃c : Conversion D F⦄ where
  settle_funding-IsSynced :
      (delta : D) (p : PaperState D F) {p' : PaperState D F}
      → IsSynced p
      → settle_funding delta p ≡ ok p'
      → IsSynced p'
  settle_funding-IsSynced delta p h done = elim (Bool-cases (delta =? num 0)) [
    | inl zero ↦ subst IsSynced (ok-injective (rw zero at done)) h
    | inr paid ↦
        sync_balance-IsSynced (record p { funding_pnl = p.funding_pnl + delta }) (rw paid at done)
  ]

  marked_state-IsSynced :
      (features : Dict String (FeatureVector F)) (ts : ℕ) (p : PaperState D F)
      → IsSynced p
      → IsSynced ((marked_state features ts p).0)
  unfolding marked_state
  marked_state-IsSynced features ts p h = h

  -- Marking to the market keeps the wallet in agreement with the books, through every funding payment.
  pub mark_to_market-IsSynced :
      (features : Dict String (FeatureVector F)) (ts : ℕ) (p : PaperState D F) {p' : PaperState D F}
      → IsSynced p
      → mark_to_market features ts p ≡ ok p'
      → IsSynced p'
  unfolding mark_to_market
  mark_to_market-IsSynced features ts p h done =
      let (loop, delta) = marked_state features ts p in
      let (settled, first, next) = >>=-eq-ok (settle_funding delta loop) _ done in
      let (seen, numbers, rest) = >>=-eq-ok (compared (total_equity settled.state)) _ next in
      let (b, found, same) = >>=-eq-ok (usdt_balance (account_state ts settled)) _ rest in
      subst IsSynced (ok-injective same) (
        account_state-IsSynced ts settled
          (settle_funding-IsSynced delta loop (marked_state-IsSynced features ts p h) first))
