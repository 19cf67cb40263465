-- ===== src/Execution/Safety.antt =====
-- What holds of the account after a cycle of `handle_order_update`.
use mathlib.Core.Path.{fun_ext, ap₂}
use nofx_cats_py.Prelude.{
  ◌≡◌, refl, ap, ◌∙◌, true, false, ◌||◌, List, [], any, arith, string_eq, pair_eq, if◌then◌else◌,
  Option, none, some, ◌⊎◌, inl, inr, Bool-cases, Option-cases, All,
}
use nofx_cats_py.Result.{Result, ok, raise}
use nofx_cats_py.Dict.{values, lookup}
use nofx_cats_py.Num.{Number, Decimal}
use nofx_cats_py.Json.{Spelling}
use nofx_cats_py.Domain.Orders.{OrderState, OrderResponse}
use nofx_cats_py.Domain.Positions.{PositionState}
use nofx_cats_py.Domain.Account.{AccountState}
use nofx_cats_py.Execution.Router.{OrderRouter, Submission}
use nofx_cats_py.Execution.Guardian.Heartbeat.{Guardian}
use nofx_cats_py.Execution.Guardian.Watch.{has_active_protection, handle_protection_order_update}
use nofx_cats_py.Execution.Guardian.Alerts.{
  is_exposed, SameBooks, find_unprotected_positions_lem, lost_protection,
  handle_protection_order_update_lem, any-of-lookup, All-of-not-any,
}
use nofx_cats_py.Execution.Protection.{
  ProtectionPlan, has_existing_protection, build_plan, ensure_disaster_stop,
}
use nofx_cats_py.Execution.Service.{Cycle, ExecutionCycleResult, watch, resume, handle_order_update}

module _ {D : Type 0} ⦃n : Number D⦄ where
  -- The orchestrator's copy of the test for a protective order agrees with the guardian's.
  pub has_existing_protection-eq :
      (s : AccountState D) (p : PositionState D)
      → has_existing_protection s p ≡ has_active_protection s p
  unfolding has_existing_protection has_active_protection
  has_existing_protection-eq s p = refl

  is_exposed-SameBooks :
      (s t : AccountState D)
      → SameBooks s t
      → (p : PositionState D) → is_exposed t p ≡ is_exposed s p
  unfolding has_active_protection
  is_exposed-SameBooks s t same p = rw same.same_orders

  any-is_exposed-SameBooks :
      (s t : AccountState D)
      → SameBooks s t
      → any (is_exposed t) (values t.positions) ≡ any (is_exposed s) (values s.positions)
  any-is_exposed-SameBooks s t same =
      ap₂ any (fun_ext (is_exposed-SameBooks s t same)) (ap values same.same_positions)

  update_account :
      (s : AccountState D) (o : OrderState D)
      → let t = (handle_protection_order_update s o).1 in
        SameBooks s t × (t.kill_switch_active ≡ (s.kill_switch_active || lost_protection s o))
  update_account s o = ground (arith, handle_protection_order_update_lem s o)

  SameBooks-trans : (s t u : AccountState D) → SameBooks s t → SameBooks t u → SameBooks s u
  SameBooks-trans s t u h k = ground arith

  -- What the statements after the protective order do to the account.
  watch_account :
      (g : Guardian) (s : AccountState D) (o : OrderState D) (sent : List Submission)
      (placed : Option OrderResponse)
      → let t = (watch g s o sent placed).account in
        SameBooks s t
        × (t.kill_switch_active ≡ (
            s.kill_switch_active || lost_protection s o || any (is_exposed s) (values s.positions)))
  unfolding watch
  watch_account g s o sent placed =
      let s₁ = (handle_protection_order_update s o).1 in
      let (same, killed) = update_account s o in
      let (_, killed', same') = find_unprotected_positions_lem s₁ in
      (SameBooks-trans s s₁ _ same same', rw (killed', killed, any-is_exposed-SameBooks s s₁ same))

  resume_account :
      (g : Guardian) (s : AccountState D) (o : OrderState D)
      (protection : List Submission × Result (Option OrderResponse)) {r : ExecutionCycleResult}
      → (resume g s o protection).result ≡ ok r
      → let t = (resume g s o protection).account in
        SameBooks s t
        × (t.kill_switch_active ≡ (
            s.kill_switch_active || lost_protection s o || any (is_exposed s) (values s.positions)))
  unfolding resume
  resume_account g s o (sent, raise e) h = cc
  resume_account g s o (sent, ok placed) h = watch_account g s o sent placed

  -- What the cycle reports as placed is what `ensure_disaster_stop` returned.
  resume_placed :
      (g : Guardian) (s : AccountState D) (o : OrderState D)
      (protection : List Submission × Result (Option OrderResponse)) {r : ExecutionCycleResult}
      → (resume g s o protection).result ≡ ok r
      → protection.1 ≡ ok r.placed_protection
  unfolding resume watch
  resume_placed g s o (sent, raise e) h = cc
  resume_placed g s o (sent, ok placed) h = ground arith

  -- A plan is made only for the open position of a filled entry order that no protective order covers.
  build_plan-exposed :
      (d : D) (o : OrderState D) (s : AccountState D) (x : Option D) {plan : ProtectionPlan D}
      → build_plan d o s x ≡ some plan
      → any (is_exposed s) (values s.positions) ≡ true
  unfolding build_plan
  build_plan-exposed d o s x h =
      elim (Option-cases (lookup (o.symbol, o.position_side) s.positions)) [
        | inl none_there ↦ ground arith
        | inr (p, found) ↦
            any-of-lookup (is_exposed s) (o.symbol, o.position_side) s.positions p found
              (ground (arith, has_existing_protection-eq s p))
      ]

module _ {D F : Type 0} ⦃n : Number D⦄ ⦃q : Decimal D⦄ ⦃m : Number F⦄ ⦃sp : Spelling F⦄ where
  protection-exposed :
      (router : Option (OrderRouter D F)) (d : D) (o : OrderState D) (s : AccountState D)
      (x : Option D) {response : OrderResponse}
      → (if o.is_algo then ([], ok none) else ensure_disaster_stop router d o s x).1
        ≡ ok (some response)
      → any (is_exposed s) (values s.positions) ≡ true
  unfolding ensure_disaster_stop
  protection-exposed router d o s x h = elim (Option-cases (build_plan d o s x)) [
    | inl no_plan ↦ ground arith
    | inr (plan, planned) ↦ build_plan-exposed d o s x planned
  ]

  module _ (router : Option (OrderRouter D F)) (default_distance : D) (g : Guardian)
      (s : AccountState D) (o : OrderState D) where
    abbrev protection : List Submission × Result (Option OrderResponse)
    protection =
        if o.is_algo then ([], ok none) else ensure_disaster_stop router default_distance o s none

    abbrev cycle : Cycle D
    cycle = handle_order_update router default_distance g s o

    -- A cycle that does not raise leaves balances, positions, orders and counters as they were, and
    -- afterwards the kill switch is active exactly if it was, or the order is a protective order that
    -- ended under an open position, or an open position has no working protective order.
    pub handle_order_update_account :
        {r : ExecutionCycleResult}
        → cycle.result ≡ ok r
        → SameBooks s cycle.account
          × (cycle.account.kill_switch_active ≡ (
              s.kill_switch_active
              || lost_protection s o
              || any (is_exposed s) (values s.positions)))
    unfolding handle_order_update
    handle_order_update_account = resume_account g s o protection

    placed_was_exposed :
        {r : ExecutionCycleResult} {response : OrderResponse}
        → cycle.result ≡ ok r
        → r.placed_protection ≡ some response
        → any (is_exposed s) (values s.positions) ≡ true
    unfolding handle_order_update
    placed_was_exposed h placed =
        protection-exposed router default_distance o s none
          (resume_placed g s o protection h ∙ ap ok placed)

    -- After a cycle that does not raise, the kill switch is active or every open position has a
    -- working protective order.
    pub handle_order_update_safe :
        {r : ExecutionCycleResult}
        → cycle.result ≡ ok r
        → (cycle.account.kill_switch_active ≡ true)
          ⊎ All (λ p. is_exposed cycle.account p ≡ false) (values cycle.account.positions)
    handle_order_update_safe h =
        let (same, killed) = handle_order_update_account h in
        elim (Bool-cases (any (is_exposed s) (values s.positions))) [
          | inl exposed ↦ inl (ground arith)
          | inr covered ↦ inr (
              All-of-not-any (is_exposed cycle.account) _
                (any-is_exposed-SameBooks s cycle.account same ∙ covered))
        ]

    -- A cycle that places a protective stop ends with the kill switch active: the stop is not entered
    -- into the account's orders before the search for unprotected positions.
    pub placed_stop_trips_kill_switch :
        {r : ExecutionCycleResult} {response : OrderResponse}
        → cycle.result ≡ ok r
        → r.placed_protection ≡ some response
        → cycle.account.kill_switch_active ≡ true
    placed_stop_trips_kill_switch h placed =
        let (_, killed) = handle_order_update_account h in
        let exposed = placed_was_exposed h placed in ground arith
