-- ===== src/Nofx/Maps.antt =====
-- `build_query_rank_map` and `build_ai300_level_map`, and the keys that they write.
use Prim.Native.String.{String}
use nofx_cats_py.Prelude.{true, false, Option, none, some, [], string_eq}
use nofx_cats_py.Prelude.Int.{ℤ, pos}
use nofx_cats_py.Result.{Result, ok, raise}
use nofx_cats_py.Raise.{◌>>=◌}
use nofx_cats_py.Dict.{Dict, insert}
use nofx_cats_py.Num.{Number}
use nofx_cats_py.Json.{Json, Items, int, bool, nil, cons, get}
use nofx_cats_py.User.Values.{as_text}
use nofx_cats_py.Nofx.Values.{field_of, sub, looped, ai300_level_to_score, usdt_symbol}

module _ {F : Type 0} where
  -- `isinstance(rank, int)`, which Python's `bool` is too.
  abbrev pub as_int : Option (Json F) → Option ℤ
  as_int (some (int i)) = some i
  as_int (some (bool true)) = some (pos 1)
  as_int (some (bool false)) = some (pos 0)
  as_int _ = none

  unfoldable pub ranks_from : Items F → Dict String ℤ → Dict String ℤ
  ranks_from nil result = result
  ranks_from (cons item rest) result = ranks_from rest (elim (as_text (get "symbol" item)) [
    | none ↦ result
    | some symbol ↦ elim (as_int (get "rank" item)) [
      | none ↦ result
      | some rank ↦ insert (usdt_symbol symbol) rank result
    ]
  ])

  unfoldable pub build_query_rank_map : Json F → Result (Dict String ℤ)
  unfolding ranks_from looped
  build_query_rank_map payload = do
    body ← sub "data" payload
    rankings ← field_of "rankings" body
    items ← looped rankings
    ok (ranks_from items [])

module _ {F : Type 0} ⦃n : Number F⦄ where
  unfoldable pub levels_from : Items F → Dict String F → Result (Dict String F)
  unfolding ai300_level_to_score
  levels_from nil result = ok result
  levels_from (cons item rest) result = elim (as_text (get "symbol" item)) [
    | none ↦ levels_from rest result
    | some symbol ↦ elim (ai300_level_to_score (get "level" item)) [
      | raise e ↦ raise e
      | ok score ↦ levels_from rest (insert (usdt_symbol symbol) score result)
    ]
  ]

  unfoldable pub build_ai300_level_map : Json F → Result (Dict String F)
  unfolding levels_from looped
  build_ai300_level_map payload = do
    body ← sub "data" payload
    coins ← field_of "coins" body
    items ← looped coins
    levels_from items []
