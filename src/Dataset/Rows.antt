-- ===== src/Dataset/Rows.antt =====
-- The rows and their summary. Reading and writing the journal's files is left out: a stream is the list
-- of its records.
use Prim.Native.Nat.{◌+◌}
use nofx_cats_py.Prelude.{
  ℕ, Bool, false, Option, none, some, String, List, [], ◌∷◌, length, or_else, string_eq, ◌==◌,
  if◌then◌else◌,
}
use nofx_cats_py.Result.{Result, ok}
use nofx_cats_py.Raise.{◌>>=◌}
use nofx_cats_py.Dict.{Dict, lookup, insert}
use nofx_cats_py.Num.{Number}
use nofx_cats_py.Json.{Json, Fields, Spelling, null, text, object, end, field, get, truth, str}
use nofx_cats_py.User.Values.{Timing, text_or}
use nofx_cats_py.User.Events.{dict_of}
use nofx_cats_py.Nofx.Values.{field_of, sub, float_or_zero}

module _ {F : Type 0} where
  abbrev pub fields_of : List (String × Json F) → Fields F
  fields_of [] = end
  fields_of ((key, v) ∷ rest) = field key v (fields_of rest)

  -- `v.get(key)`, as the value that a row keeps.
  abbrev pub value_of : (key : String) → Json F → Json F
  value_of key v = or_else (get key v) null

module _ {F : Type 0} ⦃n : Number F⦄ where
  -- `(record or {}).get(key)`
  unfoldable pub column : (key : String) → Option (Json F) → Json F
  column key none = null
  column key (some v) = if truth v then value_of key v else null

module _ {F : Type 0} ⦃n : Number F⦄ ⦃s : Spelling F⦄ where
  -- The records by their value under `key`, a later one in place of an earlier one.
  unfoldable pub group_last_by_key :
      (key : String) → List (Json F) → Dict String (Json F) → Dict String (Json F)
  group_last_by_key key [] result = result
  group_last_by_key key (item ∷ rest) result = group_last_by_key key rest (elim (get key item) [
    | none ↦ result
    | some null ↦ result
    | some v ↦ insert (str v) item result
  ])

  unfoldable pub group_by_decision_id : List (Json F) → Dict String (Json F)
  unfolding group_last_by_key
  group_by_decision_id items = group_last_by_key "decision_id" items []

  -- The body of the loop.
  unfoldable pub dataset_row :
      (fills pnl_by_cycle : Dict String (Json F)) → Json F → Result (Json F)
  unfolding column dict_of
  dataset_row fills pnl_by_cycle decision = do
    inner ← sub "decision" decision
    id_field ← field_of "decision_id" inner
    let decision_id = text_or id_field ""
    let cycle_id = text_or (get "cycle_id" decision) ""
    let fill = lookup decision_id fills
    let pnl = lookup cycle_id pnl_by_cycle
    risk ← dict_of (get "risk" decision)
    ok (
        object (
          fields_of (
            ("ts", value_of "ts" decision)
            ∷ ("cycle_id", text cycle_id)
            ∷ ("decision_id", text decision_id)
            ∷ ("mode", value_of "mode" decision)
            ∷ ("symbol", value_of "symbol" decision)
            ∷ ("symbol_source", value_of "symbol_source" decision)
            ∷ ("decision_status", value_of "decision_status" decision)
            ∷ ("regime", value_of "regime" decision)
            ∷ ("selected_strategy", value_of "selected_strategy" decision)
            ∷ ("action_score", value_of "action_score" decision)
            ∷ ("feature_stale_seconds", value_of "feature_stale_seconds" decision)
            ∷ ("risk_status", value_of "status" risk)
            ∷ ("risk_reason", value_of "reason" risk)
            ∷ ("approved_notional", value_of "approved_notional" risk)
            ∷ ("approved_leverage", value_of "approved_leverage" risk)
            ∷ ("fill_price", column "fill_price" fill)
            ∷ ("fill_quantity", column "fill_quantity" fill)
            ∷ ("realized_pnl_delta", column "realized_pnl_delta" fill)
            ∷ ("resulting_quantity", column "resulting_quantity" fill)
            ∷ ("turnover_notional_delta", column "turnover_notional_delta" fill)
            ∷ ("fee_paid_delta", column "fee_paid_delta" fill)
            ∷ ("wallet_balance", column "wallet_balance" pnl)
            ∷ ("realized_pnl", column "realized_pnl" pnl)
            ∷ ("funding_pnl", column "funding_pnl" pnl)
            ∷ ("funding_pnl_delta", column "funding_pnl_delta" pnl)
            ∷ ("fees_paid", column "fees_paid" pnl)
            ∷ ("turnover_notional", column "turnover_notional" pnl)
            ∷ ("unrealized_pnl", column "unrealized_pnl" pnl)
            ∷ ("equity", column "equity" pnl)
            ∷ ("gross_exposure", column "gross_exposure" pnl)
            ∷ ("open_positions", column "open_positions" pnl)
            ∷ [])))

  unfoldable pub dataset_rows :
      (fills pnl_by_cycle : Dict String (Json F)) → List (Json F) → Result (List (Json F))
  unfolding dataset_row
  dataset_rows fills pnls [] = ok []
  dataset_rows fills pnls (decision ∷ rest) = do
    row ← dataset_row fills pnls decision
    rows ← dataset_rows fills pnls rest
    ok (row ∷ rows)

  -- The arguments are the three streams.
  unfoldable pub build_dataset_rows :
      (decision_log fill_log pnl_log : List (Json F)) → Result (List (Json F))
  unfolding dataset_rows group_by_decision_id group_last_by_key
  build_dataset_rows decision_log fill_log pnl_log =
      dataset_rows (group_by_decision_id fill_log) (group_last_by_key "cycle_id" pnl_log [])
        decision_log

module _ {F : Type 0} where
  -- `row.get("decision_status") == status`
  abbrev pub has_status : (status : String) → Json F → Bool
  has_status status row = elim (get "decision_status" row) [
    | some (text s) ↦ s == status
    | _ ↦ false
  ]

  unfoldable pub count_status : (status : String) → List (Json F) → ℕ
  count_status status [] = 0
  count_status status (row ∷ rows) =
      let rest = count_status status rows in if has_status status row then rest + 1 else rest

  -- `rows[-1] if rows else {}`
  unfoldable pub ending_row : List (Json F) → Json F
  ending_row [] = object end
  ending_row (row ∷ []) = row
  ending_row (row ∷ next ∷ rows) = ending_row (next ∷ rows)

pub record PaperReplaySummary (F : Type 0) : Type 0 where
  pub total_decisions : ℕ
  pub executed_decisions : ℕ
  pub no_trade_decisions : ℕ
  pub realized_pnl : F
  pub ending_equity : F
  pub ending_gross_exposure : F

module _ {F : Type 0} ⦃n : Number F⦄ ⦃t : Timing F⦄ where
  unfoldable pub build_summary : List (Json F) → Result (PaperReplaySummary F)
  unfolding count_status ending_row float_or_zero
  build_summary rows = do
    pnl ← float_or_zero (get "realized_pnl" (ending_row rows))
    equity ← float_or_zero (get "equity" (ending_row rows))
    gross ← float_or_zero (get "gross_exposure" (ending_row rows))
    ok (record {
      total_decisions = length rows;
      executed_decisions = count_status "EXECUTE" rows;
      no_trade_decisions = count_status "NO_TRADE" rows;
      realized_pnl = pnl;
      ending_equity = equity;
      ending_gross_exposure = gross;
    })
