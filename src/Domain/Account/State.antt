-- ===== src/Domain/Account/State.antt =====
-- The fields of `AccountState` and the methods that change them.
use Prim.Native.Nat.{◌+◌}
use nofx_cats_py.Prelude.{
  ℕ, Bool, true, false, Option, none, some, String, List, [], ◌∷◌, leb, string_eq, pair_eq, or_else,
  if◌then◌else◌,
}
use nofx_cats_py.Result.{Result, ok, raise}
use nofx_cats_py.Dict.{Dict, insert, insert_all}
use nofx_cats_py.Domain.Orders.{OrderState, identity}
use nofx_cats_py.Domain.Positions.{BalanceState, PositionState, position_key}

pub record AccountState (D : Type 0) : Type 0 where
  pub balances : Dict String (BalanceState D)
  pub positions : Dict (String × String) (PositionState D)
  pub orders : Dict String (OrderState D)
  pub last_user_stream_event_at : Option ℕ
  pub last_reconciled_at : Option ℕ
  pub state_mismatch_count : ℕ
  pub reconcile_failure_count : ℕ
  pub last_mismatch_reason : Option String
  pub last_reconcile_error : Option String
  pub kill_switch_active : Bool
  pub last_kill_switch_reason : Option String

module _ {D : Type 0} where
  -- `AccountState()`
  abbrev pub empty_account : AccountState D
  empty_account = record {
    balances = [];
    positions = [];
    orders = [];
    last_user_stream_event_at = none;
    last_reconciled_at = none;
    state_mismatch_count = 0;
    reconcile_failure_count = 0;
    last_mismatch_reason = none;
    last_reconcile_error = none;
    kill_switch_active = false;
    last_kill_switch_reason = none;
  }

  -- The optional `event_time` of the source, with the clock's reading for its absence.
  unfoldable pub record_user_stream_event : Option ℕ → (clock : ℕ) → AccountState D → AccountState D
  record_user_stream_event event_time clock s = record s {
    last_user_stream_event_at = some (or_else event_time clock);
  }

  unfoldable pub mark_reconciled : Option ℕ → (clock : ℕ) → AccountState D → AccountState D
  mark_reconciled at clock s = record s { last_reconciled_at = some (or_else at clock) }

  unfoldable pub activate_kill_switch : String → AccountState D → AccountState D
  activate_kill_switch reason s = record s {
    kill_switch_active = true;
    last_kill_switch_reason = some reason;
  }

  unfoldable pub record_state_mismatch : String → (threshold : ℕ) → AccountState D → AccountState D
  unfolding activate_kill_switch
  record_state_mismatch reason threshold s =
      let s' = record s {
        state_mismatch_count = s.state_mismatch_count + 1;
        last_mismatch_reason = some reason;
      } in
      if leb threshold s'.state_mismatch_count then activate_kill_switch reason s' else s'

  unfoldable pub clear_state_mismatch : AccountState D → AccountState D
  clear_state_mismatch s = record s { state_mismatch_count = 0; last_mismatch_reason = none }

  unfoldable pub record_reconcile_failure :
      String → (threshold : ℕ) → AccountState D → AccountState D
  unfolding activate_kill_switch
  record_reconcile_failure reason threshold s =
      let s' = record s {
        reconcile_failure_count = s.reconcile_failure_count + 1;
        last_reconcile_error = some reason;
      } in
      if leb threshold s'.reconcile_failure_count then activate_kill_switch reason s' else s'

  unfoldable pub clear_reconcile_failure : AccountState D → AccountState D
  clear_reconcile_failure s = record s { reconcile_failure_count = 0; last_reconcile_error = none }

  unfoldable pub upsert_balance : BalanceState D → AccountState D → AccountState D
  upsert_balance b s = record s { balances = insert b.asset b s.balances }

  unfoldable pub upsert_position : PositionState D → AccountState D → AccountState D
  upsert_position p s = record s { positions = insert (position_key p) p s.positions }

  unfoldable pub upsert_order : OrderState D → AccountState D → Result (AccountState D)
  upsert_order o s = elim (identity o) [
    | ok k ↦ ok (record s { orders = insert k o s.orders })
    | raise e ↦ raise e
  ]

  by_asset : List (BalanceState D) → Dict String (BalanceState D)
  by_asset [] = []
  by_asset (b ∷ bs) = (b.asset, b) ∷ by_asset bs

  unfoldable pub replace_balances : List (BalanceState D) → AccountState D → AccountState D
  unfolding by_asset
  replace_balances bs s = record s { balances = insert_all (by_asset bs) [] }

  unfoldable pub by_key : List (PositionState D) → Dict (String × String) (PositionState D)
  by_key [] = []
  by_key (p ∷ ps) = (position_key p, p) ∷ by_key ps

  unfoldable pub replace_positions : List (PositionState D) → AccountState D → AccountState D
  unfolding by_key
  replace_positions ps s = record s { positions = insert_all (by_key ps) [] }

  -- The pairs of the comprehension; the first order with no identifier stops it.
  unfoldable pub by_identity : List (OrderState D) → Result (Dict String (OrderState D))
  by_identity [] = ok []
  by_identity (o ∷ os) = elim (identity o) [
    | raise e ↦ raise e
    | ok k ↦ elim (by_identity os) [ raise e ↦ raise e | ok rest ↦ ok ((k, o) ∷ rest) ]
  ]

  unfoldable pub replace_orders : List (OrderState D) → AccountState D → Result (AccountState D)
  unfolding by_identity
  replace_orders os s = elim (by_identity os) [
    | ok pairs ↦ ok (record s { orders = insert_all pairs [] })
    | raise e ↦ raise e
  ]
