-- ===== src/Paper/Market.antt =====
-- src/cats_py/services/paper_execution.py: `mark_to_market` and `_maybe_apply_funding`.
use nofx_cats_py.Prelude.{ℕ, Option, none, some, String, [], ◌∷◌, string_eq, if◌then◌else◌}
use nofx_cats_py.Result.{Result, ok}
use nofx_cats_py.Raise.{◌>>=◌}
use nofx_cats_py.Dict.{Dict, lookup, insert}
use nofx_cats_py.Num.{
  Number, Float, Decimal, Conversion, half_up, quantize, ◌+◌, ◌-◌, ◌*◌, ◌/◌, ◌<?◌, ◌≤?◌, ◌=?◌, abs,
  opposite, num, min, max, float_of, decimal_of, elapsed,
}
use nofx_cats_py.Domain.Enums.{PositionDirection, long, short, flat}
use nofx_cats_py.Domain.Positions.{PositionState, is_open}
use nofx_cats_py.Domain.Account.{total_equity}
use nofx_cats_py.Domain.Signals.{FeatureVector}
use nofx_cats_py.Exits.Evaluator.{PositionEntryMeta}
use nofx_cats_py.Paper.State.{
  PaperState, usdt_balance, compared, account_state, quantity_sign, sync_balance,
}

-- What the loop of `mark_to_market` changes beside the positions.
pub record Marking (D F : Type 0) : Type 0 where
  pub funding_delta : D
  pub last_funding : Dict String ℕ
  pub metadata : Dict String (PositionEntryMeta F)

module _ {D F : Type 0} ⦃n : Number D⦄ ⦃q : Decimal D⦄ ⦃c : Conversion D F⦄ where
  -- The amount of one funding payment: what a long position pays at a positive rate.
  unfoldable pub funding_payment : PositionState D → (reference_price funding_rate : F) → D
  unfolding quantity_sign
  funding_payment p reference_price funding_rate =
      let notional = abs (p.quantity * decimal_of reference_price) in
      if notional =? num 0
      then num 0
      else quantize half_up 8
          (opposite (notional * decimal_of funding_rate * quantity_sign p.quantity))

module _ {D F : Type 0} ⦃n : Number D⦄ ⦃q : Decimal D⦄ ⦃m : Number F⦄ ⦃f : Float F⦄
    ⦃c : Conversion D F⦄ (interval : D) (ts : ℕ) where
  -- `_maybe_apply_funding`: the payment, and the times of the last payments.
  unfoldable pub maybe_apply_funding :
      PositionState D → FeatureVector F → Dict String ℕ → D × Dict String ℕ
  maybe_apply_funding p feature last =
      let payment = funding_payment p feature.reference_price feature.funding_rate in
      let paid : D × Dict String ℕ = (payment, insert p.symbol ts last) in
      if feature.funding_rate =? num 0
      then (num 0, last)
      else if num 0 <? interval
      then elim (lookup p.symbol last) [
        | none ↦ (num 0, insert p.symbol ts last)
        | some at ↦
            let hours : F = elapsed ts at / num 3600 in
            if decimal_of hours <? interval then (num 0, last) else paid
      ]
      else paid

module _ {D : Type 0} ⦃n : Number D⦄ where
  -- The position at a new mark price.
  unfoldable pub marked : D → (ts : ℕ) → PositionState D → PositionState D
  marked mark ts p = record p {
    mark_price = mark;
    notional = p.quantity * mark;
    unrealized_pnl = (mark - p.entry_price) * p.quantity;
    updated_at = ts;
  }

module _ {F : Type 0} ⦃m : Number F⦄ where
  -- The best price since the entry.
  abbrev pub peak_after : PositionDirection → (peak current : F) → F
  peak_after long peak current = max peak current
  peak_after short peak current = min peak current
  peak_after flat peak current = peak

module _ {D F : Type 0} ⦃m : Number F⦄ ⦃c : Conversion D F⦄ where
  unfoldable pub follow_peak :
      PositionState D → D → Dict String (PositionEntryMeta F) → Dict String (PositionEntryMeta F)
  follow_peak p mark metadata = elim (lookup p.symbol metadata) [
    | none ↦ metadata
    | some meta ↦
        insert p.symbol
          (record meta { peak_price = peak_after p.direction meta.peak_price (float_of mark) })
          metadata
  ]

module _ {D F : Type 0} ⦃n : Number D⦄ ⦃q : Decimal D⦄ ⦃m : Number F⦄ ⦃f : Float F⦄
    ⦃c : Conversion D F⦄ (features : Dict String (FeatureVector F)) (interval : D) (ts : ℕ) where
  -- The two `continue`s of the loop: a closed position, or one without a usable price.
  abbrev pub priced : PositionState D → Option (FeatureVector F)
  priced p =
      if is_open p
      then elim (lookup p.symbol features) [
        | none ↦ none
        | some feature ↦ if feature.reference_price ≤? num 0 then none else some feature
      ]
      else none

  unfoldable pub mark_position : PositionState D → Marking D F → PositionState D × Marking D F
  unfolding maybe_apply_funding marked follow_peak
  mark_position p k = elim (priced p) [
    | none ↦ (p, k)
    | some feature ↦
        let (delta, last) = maybe_apply_funding interval ts p feature k.last_funding in
        let mark = decimal_of feature.reference_price in
        (
          marked mark ts p,
          record {
            funding_delta = k.funding_delta + delta;
            last_funding = last;
            metadata = follow_peak p mark k.metadata;
          },
        )
  ]

  -- The loop over `self.state.positions.values()`; the positions are changed where they stand.
  unfoldable pub mark_positions :
      Dict (String × String) (PositionState D)
      → Marking D F
      → Dict (String × String) (PositionState D) × Marking D F
  unfolding mark_position
  mark_positions [] k = ([], k)
  mark_positions ((key, p) ∷ rest) k =
      let (p', k') = mark_position p k in
      let (rest', k'') = mark_positions rest k' in ((key, p') ∷ rest', k'')

module _ {D F : Type 0} ⦃n : Number D⦄ ⦃q : Decimal D⦄ ⦃m : Number F⦄ ⦃f : Float F⦄
    ⦃c : Conversion D F⦄ where
  abbrev pub marking_of : PaperState D F → Marking D F
  marking_of p = record {
    funding_delta = num 0;
    last_funding = p.last_funding_applied_at;
    metadata = p.position_metadata;
  }

  -- The state behind the loop, and the sum of the payments.
  unfoldable pub marked_state :
      Dict String (FeatureVector F) → (ts : ℕ) → PaperState D F → PaperState D F × D
  unfolding mark_positions
  marked_state features ts p =
      let (positions, k) =
        mark_positions features p.funding_interval_hours ts p.state.positions (marking_of p) in
      (
        record p {
          state = record p.state { positions = positions };
          last_funding_applied_at = k.last_funding;
          position_metadata = k.metadata;
        },
        k.funding_delta,
      )

  -- `if funding_delta != 0: …`
  abbrev pub settle_funding : D → PaperState D F → Result (PaperState D F)
  settle_funding delta p =
      if delta =? num 0
      then ok p
      else sync_balance (record p { funding_pnl = p.funding_pnl + delta })

  -- `mark_to_market`. A reference price that is NaN makes the equity NaN, which `account_state` compares.
  -- The snapshot for the journal reads the balance.
  unfoldable pub mark_to_market :
      Dict String (FeatureVector F) → (ts : ℕ) → PaperState D F → Result (PaperState D F)
  mark_to_market features ts p =
      let (loop, delta) = marked_state features ts p in
      do
        settled ← settle_funding delta loop
        seen ← compared (total_equity settled.state)
        let p' = account_state ts settled
        balance ← usdt_balance p'
        ok p'
