-- ===== src/Paper/Memory.antt =====
-- What the paper account remembers of entries and exits after a fill.
use nofx_cats_py.Prelude.{
  ℕ, ◌≡◌, Bool, true, not, ◌&&◌, Option, none, some, String, arith, string_eq, ◌==◌, if◌then◌else◌,
  or_else, ap, sym, ◌∙◌,
}
use nofx_cats_py.Result.{ok}
use nofx_cats_py.Dict.{lookup, lookup-insert, lookup-remove}
use nofx_cats_py.Num.{Number, Float, Decimal, Conversion, ◌<?◌, ◌/◌, ◌=?◌, num, float_of, elapsed}
use nofx_cats_py.Domain.Orders.{present}
use nofx_cats_py.Domain.Signals.{TradeDecision, RiskDecision}
use nofx_cats_py.Exits.Evaluator.{PositionEntryMeta}
use nofx_cats_py.Paper.State.{PaperFillResult, PaperState, is_in_cooldown}
use nofx_cats_py.Paper.Fill.{Fill, apply_fill, track_entry, position_of}
use nofx_cats_py.Paper.Books.{apply_fill-eq-ok, booked}
use nofx_cats_py.Paper.Positions.{resulting, settled-frame}

module _ {D F : Type 0} ⦃n : Number D⦄ ⦃q : Decimal D⦄ ⦃m : Number F⦄ ⦃f : Float F⦄
    ⦃c : Conversion D F⦄ (d : TradeDecision F D) (risk : RiskDecision F) (ts : ℕ) (fill : Fill D)
    (p : PaperState D F) where
  abbrev pub closes : Bool
  closes = (resulting d risk ts fill p).quantity =? num 0

  abbrev pub opens : Bool
  opens = not closes && ((position_of d.symbol ts p).quantity =? num 0)

  -- What is remembered of a position from its entry on.
  abbrev pub entry : PositionEntryMeta F
  entry = record {
    entry_time = ts;
    peak_price = float_of fill.price;
    strategy_name = or_else (present d.selected_strategy) "unknown";
  }

  booked-memory :
      (symbol : String)
      → (lookup symbol (booked d risk ts fill p).position_metadata ≡ (
          if d.symbol == symbol
          then (if closes
              then none
              else if opens
              then some entry
              else lookup symbol p.position_metadata)
          else lookup symbol p.position_metadata))
        × (lookup symbol (booked d risk ts fill p).last_exit_time
            ≡ (if closes && (d.symbol == symbol) then some ts else lookup symbol p.last_exit_time))
  unfolding track_entry
  booked-memory symbol = ground (
    arith,
    lookup-insert d.symbol symbol entry p.position_metadata,
    lookup-remove d.symbol symbol p.position_metadata,
    lookup-insert d.symbol symbol ts p.last_exit_time,
  )

  -- A fill that brings the quantity to zero forgets the entry of its symbol and notes the time of the
  -- exit; one that opens a position notes its entry; any other leaves both as they were. Other symbols
  -- are not touched.
  pub apply_fill-memory :
      {r : Option (PaperFillResult D)} {p' : PaperState D F} (symbol : String)
      → apply_fill d risk ts fill p ≡ ok (r, p')
      → (lookup symbol p'.position_metadata ≡ (
          if d.symbol == symbol
          then (if closes
              then none
              else if opens
              then some entry
              else lookup symbol p.position_metadata)
          else lookup symbol p.position_metadata))
        × (lookup symbol p'.last_exit_time
            ≡ (if closes && (d.symbol == symbol) then some ts else lookup symbol p.last_exit_time))
  apply_fill-memory symbol h =
      let (synced, first, done) = apply_fill-eq-ok d risk ts fill p h in
      let (positions, metadata, exits, switch) = settled-frame ts (booked d risk ts fill p) first in
      let (known, left) = booked-memory symbol in
      (
        ap (λ (s : PaperState D F). lookup symbol s.position_metadata) (sym done)
            ∙ ap (lookup symbol) metadata
            ∙ known,
        ap (λ (s : PaperState D F). lookup symbol s.last_exit_time) (sym done)
            ∙ ap (lookup symbol) exits
            ∙ left,
      )

  -- After a fill that closes the position, the symbol is in cooldown exactly while the minutes since
  -- the fill are below the cooldown's.
  pub apply_fill-is_in_cooldown :
      {r : Option (PaperFillResult D)} {p' : PaperState D F} (now : ℕ) (minutes : F)
      → apply_fill d risk ts fill p ≡ ok (r, p')
      → closes ≡ true
      → is_in_cooldown d.symbol now minutes p' ≡ (elapsed now ts / num 60 <? minutes)
  unfolding is_in_cooldown
  apply_fill-is_in_cooldown {r} {p'} now minutes h closed =
      let left : lookup d.symbol p'.last_exit_time ≡ some ts =
        (apply_fill-memory d.symbol h).1
        ∙ ground (arith, string_eq.beq_iff d.symbol d.symbol, closed) in
      ground (arith, left)
