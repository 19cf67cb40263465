-- ===== src/Paper/Positions.antt =====
-- What a fill does to the positions of the paper account and to what it remembers of them.
use mathlib.Core.Option.{some-injective}
use nofx_cats_py.Prelude.{
  ℕ, ◌≡◌, refl, inl, inr, Option, some, String, [], ◌∷◌, arith, string_eq, pair_eq, if◌then◌else◌,
  Option-cases, Bool-cases, ◌==◌, sym, All, ap, ◌∙◌,
}
use nofx_cats_py.Result.{ok, ok-injective}
use nofx_cats_py.Raise.{>>=-eq-ok}
use nofx_cats_py.Dict.{Dict, lookup, insert, lookup-insert}
use nofx_cats_py.Num.{Number, Float, Decimal, Conversion, ◌+◌}
use nofx_cats_py.Domain.Positions.{PositionState, position_key}
use nofx_cats_py.Domain.Account.{
  activate_kill_switch, record_user_stream_event, mark_reconciled, upsert_position,
}
use nofx_cats_py.Domain.Signals.{TradeDecision, RiskDecision}
use nofx_cats_py.Paper.State.{
  PaperFillResult, PaperState, usdt_balance, account_state, settle, sync_balance,
  direction_for_quantity,
}
use nofx_cats_py.Paper.Fill.{Fill, filled_position, apply_fill, track_entry, position_of}
use nofx_cats_py.Paper.Books.{apply_fill-eq-ok, booked}

module _ {D F : Type 0} ⦃n : Number D⦄ ⦃q : Decimal D⦄ where
  -- Settling the wallet touches nothing but balances and kill switch, and `account_state` nothing but
  -- times and the high watermark.
  pub settled-frame :
      (ts : ℕ) (p : PaperState D F) {s : PaperState D F}
      → sync_balance p ≡ ok s
      → ((account_state ts s).state.positions ≡ p.state.positions)
        × ((account_state ts s).position_metadata ≡ p.position_metadata)
        × ((account_state ts s).last_exit_time ≡ p.last_exit_time)
        × ((account_state ts s).state.kill_switch_active ≡ s.state.kill_switch_active)
  unfolding sync_balance account_state record_user_stream_event mark_reconciled activate_kill_switch
  settled-frame ts p {s} h =
      let (b, found, done) = >>=-eq-ok (usdt_balance p) (λ b. ok (settle b p)) h in
      let same : settle b p ≡ s = ok-injective done in ground arith

module _ {D : Type 0} ⦃n : Number D⦄ where
  -- A position stands under its own key, and its direction is the sign of its quantity.
  abbrev pub IsSoundEntry : (String × String) × PositionState D → Type 0
  IsSoundEntry (key, v) = (position_key v ≡ key) × (v.direction ≡ direction_for_quantity v.quantity)

  abbrev pub AreSound : Dict (String × String) (PositionState D) → Type 0
  AreSound positions = All IsSoundEntry positions

  pub insert-AreSound :
      (v : PositionState D) (positions : Dict (String × String) (PositionState D))
      → v.direction ≡ direction_for_quantity v.quantity
      → AreSound positions
      → AreSound (insert (position_key v) v positions)
  unfolding insert
  insert-AreSound v [] e h = ((refl, e), tt)
  insert-AreSound v ((key, w) ∷ rest) e h = elim (Bool-cases (key == position_key v)) [
    | inl same ↦ rw same ((sym ((pair_eq.beq_iff key (position_key v)).0 same), e), h.1)
    | inr other ↦ rw other (h.0, insert-AreSound v rest e h.1)
  ]

  lookup-AreSound :
      (key : String × String) (positions : Dict (String × String) (PositionState D))
      {v : PositionState D}
      → AreSound positions
      → lookup key positions ≡ some v
      → position_key v ≡ key
  unfolding lookup
  lookup-AreSound key [] h e = cc
  lookup-AreSound key ((j, w) ∷ rest) {v} h e = elim (Bool-cases (j == key)) [
    | inl same ↦
        ap position_key (sym (some-injective _ _ (rw same at e)))
        ∙ h.0.0
        ∙ (pair_eq.beq_iff j key).0 same
    | inr other ↦ lookup-AreSound key rest h.1 (rw other at e)
  ]

module _ {D F : Type 0} ⦃n : Number D⦄ where
  position_of-key :
      (symbol : String) (ts : ℕ) (p : PaperState D F)
      → AreSound p.state.positions
      → position_key (position_of symbol ts p) ≡ (symbol, "BOTH")
  unfolding position_of
  position_of-key symbol ts p h = elim (Option-cases (lookup (symbol, "BOTH") p.state.positions)) [
    | inl e ↦ rw e refl
    | inr (v, e) ↦ rw e (lookup-AreSound (symbol, "BOTH") p.state.positions h e)
  ]

module _ {D F : Type 0} ⦃n : Number D⦄ ⦃q : Decimal D⦄ ⦃m : Number F⦄ ⦃f : Float F⦄
    ⦃c : Conversion D F⦄ (d : TradeDecision F D) (risk : RiskDecision F) (ts : ℕ) (fill : Fill D)
    (p : PaperState D F) where
  -- The position behind the fill.
  abbrev pub resulting : PositionState D
  resulting = filled_position fill risk.approved_leverage ts (position_of d.symbol ts p)

  booked-frame :
      ((booked d risk ts fill p).state.positions
        ≡ insert (position_key (position_of d.symbol ts p)) resulting p.state.positions)
      × ((booked d risk ts fill p).state.kill_switch_active ≡ p.state.kill_switch_active)
  unfolding upsert_position track_entry filled_position
  booked-frame = ground arith

  -- A fill keeps the positions sound.
  pub apply_fill-AreSound :
      {r : Option (PaperFillResult D)} {p' : PaperState D F}
      → apply_fill d risk ts fill p ≡ ok (r, p')
      → AreSound p.state.positions
      → AreSound p'.state.positions
  unfolding filled_position
  apply_fill-AreSound {r} {p'} h sound =
      let (synced, first, done) = apply_fill-eq-ok d risk ts fill p h in
      let same : p'.state.positions ≡ insert (position_key resulting) resulting p.state.positions =
        ap (λ (s : PaperState D F). s.state.positions) (sym done)
        ∙ (settled-frame ts (booked d risk ts fill p) first).0
        ∙ booked-frame.0 in
      rw same (insert-AreSound resulting p.state.positions refl sound)

  -- A fill changes the position of the decision's symbol alone: its quantity grows by the signed
  -- quantity of the fill, and its direction is the sign of the new quantity.
  pub apply_fill-positions :
      {r : Option (PaperFillResult D)} {p' : PaperState D F} (key : String × String)
      → apply_fill d risk ts fill p ≡ ok (r, p')
      → AreSound p.state.positions
      → (lookup key p'.state.positions
          ≡ (if (d.symbol, "BOTH") == key then some resulting else lookup key p.state.positions))
        × (resulting.quantity ≡ (position_of d.symbol ts p).quantity + fill.signed)
        × (resulting.direction ≡ direction_for_quantity resulting.quantity)
  unfolding filled_position
  apply_fill-positions {r} {p'} key h sound =
      let (synced, first, done) = apply_fill-eq-ok d risk ts fill p h in
      let same : p'.state.positions
          ≡ insert (position_key (position_of d.symbol ts p)) resulting p.state.positions =
        ap (λ (s : PaperState D F). s.state.positions) (sym done)
        ∙ (settled-frame ts (booked d risk ts fill p) first).0
        ∙ booked-frame.0 in
      (
        rw (same, position_of-key d.symbol ts p sound)
            (lookup-insert (d.symbol, "BOTH") key resulting p.state.positions),
        refl,
        refl,
      )
