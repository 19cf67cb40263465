-- ===== src/Dataset/Totals.antt =====
-- No row is lost or counted twice on the way into the groups.
use Prim.Native.Nat.{◌+◌}
use nofx_cats_py.Prelude.{
  ◌≡◌, refl, ℕ, String, List, [], ◌∷◌, ◌++◌, length, length-append, string_eq, ◌==◌, inl, inr,
  Bool-cases, arith, ap, sym, if◌then◌else◌, ◌∙◌,
}
use nofx_cats_py.Result.{ok, ok-injective}
use nofx_cats_py.Raise.{>>=-eq-ok}
use nofx_cats_py.Dict.{Dict}
use nofx_cats_py.Num.{Number}
use nofx_cats_py.Json.{Json, Spelling, get}
use nofx_cats_py.User.Values.{Timing, text_or}
use nofx_cats_py.Nofx.Values.{float_or_zero}
use nofx_cats_py.Dataset.Rows.{count_status, ending_row, PaperReplaySummary, build_summary}
use nofx_cats_py.Dataset.Groups.{
  AggregateRow, add_to_group, grouped, executed_rows, average, sum_of, aggregate_row,
  aggregate_groups, aggregate_by, build_aggregate_rows,
}

pair_path : {a b c d : ℕ} → a ≡ b → c ≡ d → ◌≡◌ {A = ℕ × ℕ} (a, c) (b, d)
pair_path h k = rw (h, k) refl

abbrev sum_pair : ℕ × ℕ → ℕ × ℕ → ℕ × ℕ
sum_pair p q = (p.0 + q.0, p.1 + q.1)

-- The decisions, and those executed, of the aggregates of one column together.
abbrev pub totals : {F : Type 0} → (column : String) → List (AggregateRow F) → ℕ × ℕ
totals column [] = (0, 0)
totals column (row ∷ rows) =
    let rest = totals column rows in
    if row.group_by == column
    then (row.total_decisions + rest.0, row.executed_decisions + rest.1)
    else rest

-- Every decision that the summary counts is counted once in the aggregates of the column.
abbrev pub Agrees : {F : Type 0} → PaperReplaySummary F → List (AggregateRow F) → String → Type 0
Agrees summary rows column =
    totals column rows ≡ (summary.total_decisions, summary.executed_decisions)

module _ {F : Type 0} where
  length-executed_rows :
      (rows : List (Json F)) → length (executed_rows rows) ≡ count_status "EXECUTE" rows
  unfolding executed_rows count_status
  length-executed_rows [] = refl
  length-executed_rows (row ∷ rows) = ground (arith, length-executed_rows rows)

  count_status-append :
      (status : String) (xs ys : List (Json F))
      → count_status status (xs ++ ys) ≡ count_status status xs + count_status status ys
  unfolding count_status
  count_status-append status [] ys = omega arith
  count_status-append status (x ∷ xs) ys = ground (arith, count_status-append status xs ys)

  -- A measure of rows, over all groups.
  abbrev over_groups : (List (Json F) → ℕ) → Dict String (List (Json F)) → ℕ
  over_groups f [] = 0
  over_groups f ((key, rows) ∷ rest) = f rows + over_groups f rest

  abbrev IsAdditive : (List (Json F) → ℕ) → Type 0
  IsAdditive f = (xs ys : List (Json F)) → f (xs ++ ys) ≡ f xs + f ys

  over_groups-add_to_group :
      (f : List (Json F) → ℕ) (value : String) (row : Json F) (groups : Dict String (List (Json F)))
      → IsAdditive f
      → over_groups f (add_to_group value row groups) ≡ f (row ∷ []) + over_groups f groups
  unfolding add_to_group
  over_groups-add_to_group f value row [] additive = refl
  over_groups-add_to_group f value row ((key, rows) ∷ rest) additive =
      elim (Bool-cases (key == value)) [
        | inl same ↦ rw same (omega (arith, additive rows (row ∷ [])))
        | inr other ↦ rw other (omega (arith, over_groups-add_to_group f value row rest additive))
      ]

  module _ ⦃n : Number F⦄ ⦃s : Spelling F⦄ where
    over_groups-grouped :
        (f : List (Json F) → ℕ) (by : String) (rows : List (Json F))
        (groups : Dict String (List (Json F)))
        → IsAdditive f
        → over_groups f (grouped by rows groups) + f [] ≡ f rows + over_groups f groups
    unfolding grouped
    over_groups-grouped f by [] groups additive = omega arith
    over_groups-grouped f by (row ∷ rows) groups additive =
        let value = text_or (get by row) "unknown" in
        omega (
          arith,
          over_groups-grouped f by rows (add_to_group value row groups) additive,
          over_groups-add_to_group f value row groups additive,
          additive (row ∷ []) rows,
        )

  module _ ⦃n : Number F⦄ ⦃t : Timing F⦄ where
    aggregate_row-counts :
        (by value : String) (rows : List (Json F)) {row : AggregateRow F}
        → aggregate_row by (value, rows) ≡ ok row
        → (row.total_decisions ≡ length rows)
          × (row.executed_decisions ≡ count_status "EXECUTE" rows)
          × (row.group_by ≡ by)
    unfolding aggregate_row
    aggregate_row-counts by value rows done =
        let executed = executed_rows rows in
        let (_, e1, h1) = >>=-eq-ok (average "action_score" rows) _ done in
        let (_, e2, h2) = >>=-eq-ok (average "approved_notional" executed) _ h1 in
        let (_, e3, h3) = >>=-eq-ok (sum_of "realized_pnl_delta" executed) _ h2 in
        let (_, e4, h4) = >>=-eq-ok (sum_of "fee_paid_delta" executed) _ h3 in
        let (_, e5, h5) = >>=-eq-ok (sum_of "turnover_notional_delta" executed) _ h4 in
        let same = ok-injective h5 in
        (
          sym (ap (λ r. r.total_decisions) same),
          sym (ap (λ r. r.executed_decisions) same) ∙ length-executed_rows rows,
          sym (ap (λ r. r.group_by) same),
        )

    aggregate_groups-totals :
        (by column : String) (groups : Dict String (List (Json F))) {rows : List (AggregateRow F)}
        → aggregate_groups by groups ≡ ok rows
        → totals column rows ≡ (
            if by == column
            then (over_groups length groups, over_groups (count_status "EXECUTE") groups)
            else (0, 0))
    unfolding aggregate_groups
    aggregate_groups-totals by column [] done =
        ap (totals column) (sym (ok-injective done))
        ∙ elim (Bool-cases (by == column)) [ inl same ↦ rw same refl | inr other ↦ rw other refl ]
    aggregate_groups-totals by column ((value, items) ∷ groups) done =
        let (row, e1, h1) = >>=-eq-ok (aggregate_row by (value, items)) _ done in
        let (rows, e2, h2) = >>=-eq-ok (aggregate_groups by groups) _ h1 in
        let (all, executed, named) = aggregate_row-counts by value items e1 in
        let rest = aggregate_groups-totals by column groups e2 in
        ap (totals column) (sym (ok-injective h2)) ∙ elim (Bool-cases (by == column)) [
          | inl same ↦ rw (named, all, executed, rest, same) refl
          | inr other ↦ rw (named, rest, other) refl
        ]

    totals-append :
        (column : String) (xs ys : List (AggregateRow F))
        → totals column (xs ++ ys) ≡ sum_pair (totals column xs) (totals column ys)
    totals-append column [] ys = pair_path (omega arith) (omega arith)
    totals-append column (x ∷ xs) ys = elim (Bool-cases (x.group_by == column)) [
      | inl same ↦ rw (same, totals-append column xs ys) (pair_path (omega arith) (omega arith))
      | inr other ↦ rw (other, totals-append column xs ys) refl
    ]

    build_summary-counts :
        (rows : List (Json F)) {summary : PaperReplaySummary F}
        → build_summary rows ≡ ok summary
        → (length rows ≡ summary.total_decisions)
          × (count_status "EXECUTE" rows ≡ summary.executed_decisions)
    unfolding build_summary
    build_summary-counts rows done =
        let last = ending_row rows in
        let (_, e1, h1) = >>=-eq-ok (float_or_zero (get "realized_pnl" last)) _ done in
        let (_, e2, h2) = >>=-eq-ok (float_or_zero (get "equity" last)) _ h1 in
        let (_, e3, h3) = >>=-eq-ok (float_or_zero (get "gross_exposure" last)) _ h2 in
        let same = ok-injective h3 in
        (ap (λ r. r.total_decisions) same, ap (λ r. r.executed_decisions) same)

  module _ ⦃n : Number F⦄ ⦃t : Timing F⦄ ⦃s : Spelling F⦄ where
    aggregate_by-totals :
        (by column : String) (rows : List (Json F)) {groups : List (AggregateRow F)}
        → aggregate_by by rows ≡ ok groups
        → totals column groups
          ≡ (if by == column then (length rows, count_status "EXECUTE" rows) else (0, 0))
    unfolding aggregate_by count_status
    aggregate_by-totals by column rows done =
        let groups = grouped by rows [] in
        let all : over_groups length groups ≡ length rows =
          omega (arith, over_groups-grouped length by rows [] length-append) in
        let executed : over_groups (count_status "EXECUTE") groups ≡ count_status "EXECUTE" rows =
          omega (
            arith,
            over_groups-grouped (count_status "EXECUTE") by rows [] (count_status-append "EXECUTE"),
          ) in
        aggregate_groups-totals by column groups done ∙ rw (all, executed) refl

    -- What one turn adds to the totals of a column.
    abbrev counted : (by column : String) → List (Json F) → ℕ × ℕ
    counted by column rows =
        if by == column then (length rows, count_status "EXECUTE" rows) else (0, 0)

    build_aggregate_rows-totals :
        (column : String) (rows : List (Json F)) {groups : List (AggregateRow F)}
        → build_aggregate_rows rows ≡ ok groups
        → totals column groups
          ≡ sum_pair
              (sum_pair (counted "selected_strategy" column rows) (counted "regime" column rows))
              (counted "symbol_source" column rows)
    unfolding build_aggregate_rows
    build_aggregate_rows-totals column rows done =
        let (by_strategy, e1, h1) = >>=-eq-ok (aggregate_by "selected_strategy" rows) _ done in
        let (by_regime, e2, h2) = >>=-eq-ok (aggregate_by "regime" rows) _ h1 in
        let (by_source, e3, h3) = >>=-eq-ok (aggregate_by "symbol_source" rows) _ h2 in
        let first = aggregate_by-totals "selected_strategy" column rows e1 in
        let second = aggregate_by-totals "regime" column rows e2 in
        let third = aggregate_by-totals "symbol_source" column rows e3 in
        ap (totals column) (sym (ok-injective h3))
        ∙ totals-append column (by_strategy ++ by_regime) by_source
        ∙ ap (λ p. sum_pair p (totals column by_source))
            (totals-append column by_strategy by_regime)
        ∙ rw (first, second, third) refl

    -- The rows of the dataset, of which the summary counts all and the executed ones, are counted once
    -- each in the aggregates by strategy, once in those by regime and once in those by source.
    pub build_aggregate_rows-Agrees :
        (rows : List (Json F)) {summary : PaperReplaySummary F} {groups : List (AggregateRow F)}
        → build_summary rows ≡ ok summary
        → build_aggregate_rows rows ≡ ok groups
        → Agrees summary groups "selected_strategy"
          × Agrees summary groups "regime"
          × Agrees summary groups "symbol_source"
    build_aggregate_rows-Agrees rows summed done =
        let (all, executed) = build_summary-counts rows summed in
        (
          build_aggregate_rows-totals "selected_strategy" rows done
              ∙ pair_path (omega (arith, all)) (omega (arith, executed)),
          build_aggregate_rows-totals "regime" rows done
              ∙ pair_path (omega (arith, all)) (omega (arith, executed)),
          build_aggregate_rows-totals "symbol_source" rows done
              ∙ pair_path (omega (arith, all)) (omega (arith, executed)),
        )
