-- ===== src/Dataset/Groups.antt =====
-- The aggregates: for each of three columns, the rows by their value in it.
use nofx_cats_py.Prelude.{
  ℕ, zero, suc, String, List, [], ◌∷◌, ◌++◌, length, string_eq, ◌==◌, if◌then◌else◌,
}
use nofx_cats_py.Result.{Result, ok}
use nofx_cats_py.Raise.{◌>>=◌}
use nofx_cats_py.Dict.{Dict}
use nofx_cats_py.Num.{Number, num, sum_from, ◌/◌}
use nofx_cats_py.Json.{Json, Spelling, get}
use nofx_cats_py.User.Values.{Timing, text_or}
use nofx_cats_py.Nofx.Values.{float_or_zero}
use nofx_cats_py.Dataset.Rows.{has_status}

pub record AggregateRow (F : Type 0) : Type 0 where
  pub group_by : String
  pub group_value : String
  pub total_decisions : ℕ
  pub executed_decisions : ℕ
  pub execute_rate : F
  pub avg_action_score : F
  pub avg_approved_notional : F
  pub total_realized_pnl_delta : F
  pub total_fee_paid_delta : F
  pub total_turnover_notional_delta : F

module _ {F : Type 0} where
  -- `grouped.setdefault(group_value, []).append(row)`
  unfoldable pub add_to_group :
      (group_value : String) → Json F → Dict String (List (Json F)) → Dict String (List (Json F))
  add_to_group group_value row [] = (group_value, row ∷ []) ∷ []
  add_to_group group_value row ((key, rows) ∷ rest) =
      let added = add_to_group group_value row rest in
      if key == group_value then (key, rows ++ row ∷ []) ∷ rest else (key, rows) ∷ added

  unfoldable pub executed_rows : List (Json F) → List (Json F)
  executed_rows [] = []
  executed_rows (row ∷ rows) =
      let rest = executed_rows rows in if has_status "EXECUTE" row then row ∷ rest else rest

module _ {F : Type 0} ⦃n : Number F⦄ ⦃s : Spelling F⦄ where
  unfoldable pub grouped :
      (group_by : String)
      → List (Json F)
      → Dict String (List (Json F))
      → Dict String (List (Json F))
  unfolding add_to_group
  grouped group_by [] groups = groups
  grouped group_by (row ∷ rows) groups =
      grouped group_by rows (add_to_group (text_or (get group_by row) "unknown") row groups)

module _ {F : Type 0} ⦃n : Number F⦄ ⦃t : Timing F⦄ where
  unfoldable pub floats_of : (key : String) → List (Json F) → Result (List F)
  unfolding float_or_zero
  floats_of key [] = ok []
  floats_of key (row ∷ rows) = do
    value ← float_or_zero (get key row)
    values ← floats_of key rows
    ok (value ∷ values)

  unfoldable pub average_of : List F → F
  unfolding sum_from
  average_of [] = num 0
  average_of (value ∷ values) = sum_from (num 0) (value ∷ values) / num (length (value ∷ values))

  unfoldable pub average : (key : String) → List (Json F) → Result F
  unfolding floats_of average_of
  average key rows = do values ← floats_of key rows; ok (average_of values)

  unfoldable pub sum_of : (key : String) → List (Json F) → Result F
  unfolding floats_of sum_from
  sum_of key rows = do values ← floats_of key rows; ok (sum_from (num 0) values)

  -- `len(executed_rows) / len(group_rows) if group_rows else 0.0`
  unfoldable pub rate : (executed total : ℕ) → F
  rate executed zero = num 0
  rate executed (suc more) = num executed / num (suc more)

  unfoldable pub aggregate_row :
      (group_by : String) → String × List (Json F) → Result (AggregateRow F)
  unfolding executed_rows average sum_of rate
  aggregate_row by (value, rows) = do
    let executed = executed_rows rows
    score ← average "action_score" rows
    notional ← average "approved_notional" executed
    pnl ← sum_of "realized_pnl_delta" executed
    fee ← sum_of "fee_paid_delta" executed
    turnover ← sum_of "turnover_notional_delta" executed
    ok (record {
      group_by = by;
      group_value = value;
      total_decisions = length rows;
      executed_decisions = length executed;
      execute_rate = rate (length executed) (length rows);
      avg_action_score = score;
      avg_approved_notional = notional;
      total_realized_pnl_delta = pnl;
      total_fee_paid_delta = fee;
      total_turnover_notional_delta = turnover;
    })

  unfoldable pub aggregate_groups :
      (group_by : String) → Dict String (List (Json F)) → Result (List (AggregateRow F))
  unfolding aggregate_row
  aggregate_groups by [] = ok []
  aggregate_groups by (group ∷ rest) = do
    row ← aggregate_row by group
    rows ← aggregate_groups by rest
    ok (row ∷ rows)

module _ {F : Type 0} ⦃n : Number F⦄ ⦃t : Timing F⦄ ⦃s : Spelling F⦄ where
  -- One turn of the loop over the columns.
  unfoldable pub aggregate_by : (group_by : String) → List (Json F) → Result (List (AggregateRow F))
  unfolding aggregate_groups grouped
  aggregate_by by rows = aggregate_groups by (grouped by rows [])

  unfoldable pub build_aggregate_rows : List (Json F) → Result (List (AggregateRow F))
  unfolding aggregate_by
  build_aggregate_rows rows = do
    strategies ← aggregate_by "selected_strategy" rows
    regimes ← aggregate_by "regime" rows
    sources ← aggregate_by "symbol_source" rows
    ok (strategies ++ regimes ++ sources)
