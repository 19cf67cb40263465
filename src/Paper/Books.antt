-- ===== src/Paper/Books.antt =====
-- The books of the paper account: what every fill and every funding payment does to the wallet, and
-- when the service raises.
use mathlib.Core.Option
use nofx_cats_py.Prelude.{
  ℕ, ◌≡◌, refl, inl, inr, true, false, not, ◌&&◌, Option, some, arith, string_eq, pair_eq,
  Option-cases, subst,
}
use nofx_cats_py.Result.{ok, is_ok, ok-injective}
use nofx_cats_py.Raise.{>>=-eq-ok}
use nofx_cats_py.Dict.{lookup, insert, lookup-insert_self}
use nofx_cats_py.Num.{Number, Float, Decimal, Conversion, ◌≤?◌, num}
use nofx_cats_py.Domain.Positions.{BalanceState}
use nofx_cats_py.Domain.Account.{
  AccountState, activate_kill_switch, record_user_stream_event, mark_reconciled, upsert_position,
}
use nofx_cats_py.Domain.Signals.{TradeDecision, RiskDecision}
use nofx_cats_py.Paper.State.{
  PaperFillResult, PaperState, usdt_balance, account_state, book_balance, deplete, settle,
  sync_balance,
}
use nofx_cats_py.Paper.Prices.{realized_by}
use nofx_cats_py.Paper.Fill.{Fill, filled_position, book, apply_fill, track_entry, position_of}

module _ {D : Type 0} where
  abbrev pub amounts : BalanceState D → D × D × D
  amounts b = (b.wallet_balance, b.available_balance, b.cross_wallet_balance)

module _ {D : Type 0} ⦃n : Number D⦄ where
  deplete_facts :
      (wallet : D) (s : AccountState D)
      → ((deplete wallet s).balances ≡ s.balances)
        × (((wallet ≤? num 0) && not (deplete wallet s).kill_switch_active) ≡ false)
  unfolding activate_kill_switch
  deplete_facts wallet s = ground arith

module _ {D F : Type 0} ⦃n : Number D⦄ ⦃q : Decimal D⦄ where
  -- The wallet of the account is what the books say, in all its three amounts, and an account whose
  -- wallet is empty has its kill switch on.
  abbrev pub IsSynced : PaperState D F → Type 0
  IsSynced p =
      (Option.map amounts (lookup "USDT" p.state.balances)
        ≡ some (book_balance p, book_balance p, book_balance p))
      × (((book_balance p ≤? num 0) && not p.state.kill_switch_active) ≡ false)

  settle-IsSynced : (b : BalanceState D) (p : PaperState D F) → IsSynced (settle b p)
  settle-IsSynced b p =
      let wallet = book_balance p in
      let settled = record b {
        wallet_balance = wallet;
        available_balance = wallet;
        cross_wallet_balance = wallet;
      } in
      let booked = record p.state { balances = insert "USDT" settled p.state.balances } in
      let (same, switch) = deplete_facts wallet booked in
      (rw (same, lookup-insert_self "USDT" settled p.state.balances) refl, switch)

  pub sync_balance-IsSynced :
      (p : PaperState D F) {p' : PaperState D F} → sync_balance p ≡ ok p' → IsSynced p'
  unfolding sync_balance
  sync_balance-IsSynced p h =
      let (b, found, done) = >>=-eq-ok (usdt_balance p) (λ b. ok (settle b p)) h in
      subst IsSynced (ok-injective done) (settle-IsSynced b p)

  pub account_state-IsSynced :
      (now : ℕ) (p : PaperState D F) → IsSynced p → IsSynced (account_state now p)
  unfolding account_state record_user_stream_event mark_reconciled
  account_state-IsSynced now p h = h

  pub usdt_balance-IsSynced : (p : PaperState D F) → IsSynced p → is_ok (usdt_balance p) ≡ true
  usdt_balance-IsSynced p h = elim (Option-cases (lookup "USDT" p.state.balances)) [
    | inl e ↦ absurd (ground arith)
    | inr (b, e) ↦ ground arith
  ]

module _ {D F : Type 0} ⦃n : Number D⦄ ⦃q : Decimal D⦄ ⦃m : Number F⦄ ⦃f : Float F⦄
    ⦃c : Conversion D F⦄ where
  -- The state in which a fill is settled: position, entry and totals written, the wallet not yet.
  abbrev pub booked :
      TradeDecision F D → RiskDecision F → (ts : ℕ) → Fill D → PaperState D F → PaperState D F
  booked d risk ts fill p =
      let old = position_of d.symbol ts p in
      let position = filled_position fill risk.approved_leverage ts old in
      book (realized_by old.quantity old.entry_price fill.signed fill.price) fill (
        track_entry d.symbol d.selected_strategy ts old.quantity position.quantity fill.price
          (record p { state = upsert_position position p.state }))

  pub apply_fill-eq-ok :
      (d : TradeDecision F D) (risk : RiskDecision F) (ts : ℕ) (fill : Fill D) (p : PaperState D F)
      {r : Option (PaperFillResult D)} {p' : PaperState D F}
      → apply_fill d risk ts fill p ≡ ok (r, p')
      → (synced : PaperState D F) × (sync_balance (booked d risk ts fill p) ≡ ok synced)
        × (account_state ts synced ≡ p')
  unfolding apply_fill
  apply_fill-eq-ok d risk ts fill p h =
      let (synced, first, rest) = >>=-eq-ok (sync_balance (booked d risk ts fill p)) _ h in
      let (b, found, done) = >>=-eq-ok (usdt_balance (account_state ts synced)) _ rest in
      (synced, first, ground arith)

  pub apply_fill-IsSynced :
      (d : TradeDecision F D) (risk : RiskDecision F) (ts : ℕ) (fill : Fill D) (p : PaperState D F)
      {r : Option (PaperFillResult D)} {p' : PaperState D F}
      → apply_fill d risk ts fill p ≡ ok (r, p')
      → IsSynced p'
  apply_fill-IsSynced d risk ts fill p h =
      let (synced, first, done) = apply_fill-eq-ok d risk ts fill p h in
      subst IsSynced done
        (account_state-IsSynced ts synced (sync_balance-IsSynced (booked d risk ts fill p) first))
