-- ===== src/Tests/Dataset.antt =====
-- The rows of a dataset, and what is counted of them.
use nofx_cats_py.Prelude.{◌≡◌, refl, ℕ, String, map, List, [], ◌∷◌}
use nofx_cats_py.Prelude.Int.{ℤ}
use nofx_cats_py.Result.{ok}
use nofx_cats_py.Num.{fixed, sum_from}
use nofx_cats_py.Json.{Json, get, str, truth, text, object, end, field}
use nofx_cats_py.Nofx.Values.{float_or_zero}
use nofx_cats_py.Dataset.Rows.{PaperReplaySummary, build_summary, count_status, ending_row}
use nofx_cats_py.Dataset.Groups.{
  AggregateRow, build_aggregate_rows, aggregate_by, aggregate_groups, aggregate_row, grouped,
  add_to_group, executed_rows, average, average_of, floats_of, sum_of, rate,
}
use nofx_cats_py.Dataset.Totals.{Agrees, build_aggregate_rows-Agrees}
use nofx_cats_py.Tests.Samples.{sample_spelling, value_or, whole}
use nofx_cats_py.Tests.User.{sample_timing}

abbrev row_of : Json ℤ → Json ℤ → Json ℤ
row_of status strategy = object (
    field "decision_status" status (
      field "selected_strategy" strategy
        (field "regime" (text "TREND") (field "equity" (text "7") end))))

abbrev rows : List (Json ℤ)
rows =
    row_of (text "EXECUTE") (text "trend_following")
    ∷ row_of (text "NO_TRADE") (text "")
    ∷ row_of (text "EXECUTE") (text "trend_following")
    ∷ []

abbrev summary : PaperReplaySummary ℤ
summary = record {
  total_decisions = 3;
  executed_decisions = 2;
  no_trade_decisions = 1;
  realized_pnl = whole 0;
  ending_equity = whole 5;
  ending_gross_exposure = whole 0;
}

abbrev groups : List (AggregateRow ℤ)
groups = value_or [] (build_aggregate_rows rows)

-- The rows fall into four groups: two strategies, one regime and no source.
runs :
    (build_summary rows ≡ ok summary)
    × (build_aggregate_rows rows ≡ ok groups)
    × (map {B = String × ℕ} (λ g. (g.group_value, g.total_decisions)) groups
        ≡ ("trend_following", 2) ∷ ("unknown", 1) ∷ ("TREND", 3) ∷ ("unknown", 3) ∷ [])
unfolding build_summary count_status ending_row float_or_zero build_aggregate_rows aggregate_by
    aggregate_groups aggregate_row grouped add_to_group executed_rows average average_of floats_of
    sum_of rate sum_from get truth str
runs = (refl, refl, refl)

build_aggregate_rows-Agrees_example :
    Agrees summary groups "selected_strategy"
    × Agrees summary groups "regime"
    × Agrees summary groups "symbol_source"
build_aggregate_rows-Agrees_example = build_aggregate_rows-Agrees rows runs.0 runs.1
