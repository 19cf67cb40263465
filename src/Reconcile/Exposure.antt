-- ===== src/Reconcile/Exposure.antt =====
-- What a reconciliation does to the protective orders that the guardian looks for.
use nofx_cats_py.Prelude.{
  ◌≡◌, ◌∙◌, refl, sym, ap, ℕ, false, ◌||◌, some, String, List, [], ◌∷◌, inl, inr, any, All,
  string_eq, arith, subst, Option-cases,
}
use nofx_cats_py.Result.{Exception, ok, ok-injective, Result-cases}
use nofx_cats_py.Raise.{>>=-eq-ok}
use nofx_cats_py.Dict.{Dict, values, insert_all, All-insert_all}
use nofx_cats_py.Num.{Number}
use nofx_cats_py.Json.{Json, Items, Spelling, nil, cons, get, unwrapped}
use nofx_cats_py.Domain.Orders.{OrderState, identity}
use nofx_cats_py.Domain.Positions.{PositionState, is_open}
use nofx_cats_py.Domain.Account.{AccountState, by_identity, empty_account}
use nofx_cats_py.Execution.Guardian.Watch.{
  protects, has_active_protection, find_unprotected_positions,
}
use nofx_cats_py.Execution.Guardian.Alerts.{is_exposed, find_unprotected_positions_lem}
use nofx_cats_py.User.Values.{Parsing, IntParsing, Timing, as_text}
use nofx_cats_py.Reconcile.Parse.{
  items_of, parse_order, parse_orders, listed, parse_balances, parse_positions, risk_map_of,
}
use nofx_cats_py.Reconcile.Reconciler.{Answers, Clocks, Venue, read_venue, reconcile}
use nofx_cats_py.Reconcile.Outcome.{replace_orders-eq-ok, reconcile-IsRebuilt}

module _ {D : Type 0} where
  abbrev IsPlain : OrderState D → Type 0
  IsPlain o = o.is_algo ≡ false

  by_identity-All :
      (os : List (OrderState D)) {pairs : Dict String (OrderState D)}
      → by_identity os ≡ ok pairs
      → All IsPlain os
      → All IsPlain (values pairs)
  unfolding by_identity
  by_identity-All [] h plain = subst (λ d. All IsPlain (values d)) (ok-injective h) tt
  by_identity-All (o ∷ os) {pairs} h plain = elim (Result-cases (identity o)) [
    | inr (e, failed) ↦ absurd (ground arith)
    | inl (k, named) ↦ elim (Result-cases (by_identity os)) [
      | inr (e, failed) ↦ absurd (ground arith)
      | inl (rest, keyed) ↦
          let same : ok ((k, o) ∷ rest) ≡ ok pairs = ground arith in
          subst (λ d. All IsPlain (values d)) (ok-injective same)
            (plain.0, by_identity-All os keyed plain.1)
    ]
  ]

  unprotected_among :
      (p : PositionState D) (os : List (OrderState D))
      → All IsPlain os
      → any (protects p) os ≡ false
  unprotected_among p [] plain = refl
  unprotected_among p (o ∷ os) plain = ground (arith, plain.0, unprotected_among p os plain.1)

module _ {D : Type 0} ⦃n : Number D⦄ where
  exposed-open :
      (s : AccountState D)
      → ((position : PositionState D) → has_active_protection s position ≡ false)
      → (ps : List (PositionState D)) → any (is_exposed s) ps ≡ any is_open ps
  exposed-open s bare [] = refl
  exposed-open s bare (p ∷ ps) = ground (arith, bare p, exposed-open s bare ps)

module _ {D F : Type 0} ⦃n : Number F⦄ ⦃d : Number D⦄ ⦃s : Spelling F⦄ ⦃p : Parsing D⦄
    ⦃t : Timing F⦄ where
  parse_order-IsPlain :
      (at : ℕ) (symbol : String) (item : Json F) {o : OrderState D}
      → parse_order at symbol item ≡ ok o
      → IsPlain o
  unfolding parse_order
  parse_order-IsPlain at symbol item h = ground arith

  parse_orders-IsPlain :
      (at : ℕ) (items : Items F) {os : List (OrderState D)}
      → parse_orders at items ≡ ok os
      → All IsPlain os
  unfolding parse_orders
  parse_orders-IsPlain at nil h = subst (All IsPlain) (ok-injective h) tt
  parse_orders-IsPlain at (cons item rest) h = elim (Option-cases (as_text (get "symbol" item))) [
    | inl unnamed ↦ parse_orders-IsPlain at rest (rw (unnamed, parse_orders) at h)
    | inr (symbol, named) ↦
        let (o, first, later) =
          >>=-eq-ok (parse_order at symbol item) _ (rw (named, parse_orders) at h) in
        let (os, parsed, same) = >>=-eq-ok (parse_orders at rest) _ later in
        subst (All IsPlain) (ok-injective same)
          (parse_order-IsPlain at symbol item first, parse_orders-IsPlain at rest parsed)
  ]

module _ {D F : Type 0} ⦃n : Number F⦄ ⦃d : Number D⦄ ⦃s : Spelling F⦄ ⦃p : Parsing D⦄
    ⦃i : IntParsing⦄ ⦃t : Timing F⦄ (text_of : Exception → String) (clocks : Clocks)
    (answers : Answers F) (account : AccountState D) where
  read_venue-IsPlain :
      {venue : Venue D} → read_venue clocks answers ≡ ok venue → All IsPlain venue.orders
  unfolding read_venue
  read_venue-IsPlain h =
      let (info, e1, h1) = >>=-eq-ok answers.account_info _ h in
      let (risk, e2, h2) = >>=-eq-ok answers.position_risk _ h1 in
      let (open_orders, e3, h3) = >>=-eq-ok answers.open_orders _ h2 in
      let (assets, e4, h4) = >>=-eq-ok (listed "assets" info) _ h3 in
      let (balances, e5, h5) = >>=-eq-ok (parse_balances clocks.balances_at assets) _ h4 in
      let (rows, e6, h6) = >>=-eq-ok (listed "positions" info) _ h5 in
      let (positions, e7, h7) =
        >>=-eq-ok
          (parse_positions clocks.positions_at (risk_map_of (items_of (some (unwrapped risk))) [])
            rows)
          _ h6 in
      let (orders, e8, same) =
        >>=-eq-ok (parse_orders clocks.orders_at (items_of (some (unwrapped open_orders)))) _ h7 in
      subst (λ (venue : Venue D). All IsPlain venue.orders) (ok-injective same)
        (parse_orders-IsPlain clocks.orders_at (items_of (some (unwrapped open_orders))) e8)

  -- A reconciliation that succeeds leaves no protective order in the account: whatever was tracked, no
  -- position counts as protected afterwards, and the guardian's next search activates the kill switch
  -- if any position is open.
  pub reconcile-unprotected :
      {s' : AccountState D}
      → reconcile text_of clocks answers account ≡ (s', ok tt)
      → ((position : PositionState D) → has_active_protection s' position ≡ false)
        × ((find_unprotected_positions s').1.kill_switch_active
            ≡ (s'.kill_switch_active || any is_open (values s'.positions)))
  unfolding has_active_protection
  reconcile-unprotected {s'} h =
      let (venue, mismatch, read, found, (balances, positions, (t, placed, tracked)), counts) =
        reconcile-IsRebuilt text_of clocks answers account h in
      let (pairs, keyed, made) = replace_orders-eq-ok venue.orders empty_account placed in
      let plain =
        All-insert_all IsPlain pairs []
          (by_identity-All venue.orders keyed (read_venue-IsPlain read)) tt in
      let orders : s'.orders ≡ insert_all pairs [] =
        tracked ∙ ap (λ (t : AccountState D). t.orders) (sym made) in
      let bare : All IsPlain (values s'.orders) = rw orders plain in
      let exposed =
        λ (position : PositionState D). unprotected_among position (values s'.orders) bare in
      (
        exposed,
        (find_unprotected_positions_lem s').1
            ∙ ap (λ b. s'.kill_switch_active || b) (exposed-open s' exposed (values s'.positions)),
      )
