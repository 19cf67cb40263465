-- ===== src/User/Frame.antt =====
-- Events of the user stream write balances, positions and orders, and the time of the event.
use nofx_cats_py.Prelude.{◌≡◌, refl, ℕ, inl, inr, arith, subst, string_eq, pair_eq}
use nofx_cats_py.Result.{ok, Result-cases, ok-injective}
use nofx_cats_py.Num.{Number}
use nofx_cats_py.Json.{Json, Spelling}
use nofx_cats_py.Domain.Orders.{OrderState, identity}
use nofx_cats_py.Domain.Account.{
  AccountState, record_user_stream_event, upsert_balance, upsert_position, upsert_order,
}
use nofx_cats_py.Paper.Positions.{AreSound, insert-AreSound}
use nofx_cats_py.User.Values.{Parsing, IntParsing, Timing}
use nofx_cats_py.User.Events.{apply}
use nofx_cats_py.User.Keeps.{IsKept, apply-keeps}

module _ {D : Type 0} where
  -- The same counters, reasons, kill switch and time of reconciliation: all but the balances, positions,
  -- orders and the time of the last event.
  abbrev pub SameControl : AccountState D → AccountState D → Type 0
  SameControl s t =
      (t.kill_switch_active ≡ s.kill_switch_active)
      × (t.last_kill_switch_reason ≡ s.last_kill_switch_reason)
      × (t.state_mismatch_count ≡ s.state_mismatch_count)
      × (t.reconcile_failure_count ≡ s.reconcile_failure_count)
      × (t.last_mismatch_reason ≡ s.last_mismatch_reason)
      × (t.last_reconcile_error ≡ s.last_reconcile_error)
      × (t.last_reconciled_at ≡ s.last_reconciled_at)

module _ {D : Type 0} ⦃d : Number D⦄ where
  -- A consistent account: sound positions, and the control fields of `start`.
  abbrev pub IsTidy : (start : AccountState D) → AccountState D → Type 0
  IsTidy start s = AreSound s.positions × SameControl start s

  upsert_order-IsTidy :
      (start : AccountState D) (o : OrderState D) (s s' : AccountState D)
      → upsert_order o s ≡ ok s'
      → IsTidy start s
      → IsTidy start s'
  unfolding upsert_order
  upsert_order-IsTidy start o s s' h tidy = elim (Result-cases (identity o)) [
    | inr (e, failed) ↦ absurd (ground arith)
    | inl (k, named) ↦ subst (IsTidy start) (ok-injective (rw (named, upsert_order) at h)) tidy
  ]

  IsTidy-IsKept : (start : AccountState D) → IsKept (IsTidy start)
  unfolding record_user_stream_event upsert_balance upsert_position
  IsTidy-IsKept start = record {
    on_event = λ at clock s tidy. tidy;
    on_balance = λ b s tidy. tidy;
    on_position = λ v s signed tidy. (insert-AreSound v s.positions signed tidy.0, tidy.1);
    on_order = upsert_order-IsTidy start;
  }

module _ {D F : Type 0} ⦃n : Number F⦄ ⦃d : Number D⦄ ⦃s : Spelling F⦄ ⦃p : Parsing D⦄
    ⦃i : IntParsing⦄ ⦃t : Timing F⦄ where
  -- Every event, also one that raises in the middle, leaves each position under its own key with the
  -- direction of its quantity, and the counters, the reasons and the kill switch as they were.
  pub apply-AreSound :
      (clock : ℕ) (payload : Json F) (account : AccountState D)
      → AreSound account.positions
      → AreSound (apply clock payload account).0.positions
        × SameControl account (apply clock payload account).0
  apply-AreSound clock payload account sound =
      apply-keeps (IsTidy account) (IsTidy-IsKept account) clock payload account
        (sound, (refl, refl, refl, refl, refl, refl, refl))
