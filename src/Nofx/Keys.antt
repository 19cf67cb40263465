-- ===== src/Nofx/Keys.antt =====
-- The tables that are read from the data source name their symbols as the venue does.
use Prim.Native.String as String
use text.Mathlib.TextLemmas.{cons-append}
use Prim.Native.String.{String}
use nofx_cats_py.Prelude.{
  ◌≡◌, refl, sym, true, [], ◌∷◌, concat, inl, inr, All, string_eq, ◌==◌, arith, subst, Bool-cases,
  Option-cases,
}
use nofx_cats_py.Prelude.Int.{ℤ}
use nofx_cats_py.Result.{ok, ok-injective}
use nofx_cats_py.Raise.{>>=-eq-ok}
use nofx_cats_py.Dict.{Dict, keys, insert}
use nofx_cats_py.Json.{Json, Items, nil, cons, get}
use nofx_cats_py.User.Values.{as_text}
use nofx_cats_py.Nofx.Values.{field_of, sub, looped, ends_with_usdt, usdt_symbol}
use nofx_cats_py.Nofx.Maps.{as_int, ranks_from, build_query_rank_map}

abbrev pub IsVenueName : String → Type 0
IsVenueName s = ends_with_usdt s ≡ true

append_usdt : (s : String) → IsVenueName (String.◌++◌ s "USDT")
unfolding ends_with_usdt
append_usdt String.[] = refl
append_usdt (String.◌∷◌ c s) =
    let whole : IsVenueName (String.◌∷◌ c (String.◌++◌ s "USDT")) = ground (arith, append_usdt s) in
    subst IsVenueName (sym (cons-append c s "USDT")) whole

appended : (s : String) → IsVenueName (concat (s ∷ "USDT" ∷ []))
unfolding concat
appended s = append_usdt s

usdt_symbol-IsVenueName : (s : String) → IsVenueName (usdt_symbol s)
usdt_symbol-IsVenueName s = elim (Bool-cases (ends_with_usdt s)) [
  | inl already ↦ rw already already
  | inr plain ↦ rw plain (appended s)
]

insert-IsVenueName :
    {V : Type 0} (k : String) (v : V) (d : Dict String V)
    → IsVenueName k
    → All IsVenueName (keys d)
    → All IsVenueName (keys (insert k v d))
unfolding insert
insert-IsVenueName k v [] here rest = (here, tt)
insert-IsVenueName k v ((j, w) ∷ d) here rest = elim (Bool-cases (j == k)) [
  | inl same ↦ rw same rest
  | inr other ↦ rw other (rest.0, insert-IsVenueName k v d here rest.1)
]

module _ {F : Type 0} where
  ranks_from-IsVenueName :
      (items : Items F) (result : Dict String ℤ)
      → All IsVenueName (keys result)
      → All IsVenueName (keys (ranks_from items result))
  unfolding ranks_from
  ranks_from-IsVenueName nil result good = good
  ranks_from-IsVenueName (cons item rest) result good =
      elim (Option-cases (as_text (get "symbol" item))) [
        | inl unnamed ↦ rw (unnamed, ranks_from) (ranks_from-IsVenueName rest result good)
        | inr (symbol, named) ↦ elim (Option-cases (as_int (get "rank" item))) [
          | inl unranked ↦
              rw (named, unranked, ranks_from) (ranks_from-IsVenueName rest result good)
          | inr (rank, ranked) ↦
              rw (named, ranked, ranks_from)
                (ranks_from-IsVenueName rest (insert (usdt_symbol symbol) rank result) (
                  insert-IsVenueName (usdt_symbol symbol) rank result
                    (usdt_symbol-IsVenueName symbol) good))
        ]
      ]

  -- Every symbol of the ranking ends with USDT, as the configured symbols do.
  pub build_query_rank_map-IsVenueName :
      (payload : Json F) {ranks : Dict String ℤ}
      → build_query_rank_map payload ≡ ok ranks
      → All IsVenueName (keys ranks)
  unfolding build_query_rank_map
  build_query_rank_map-IsVenueName payload h =
      let (body, e1, h1) = >>=-eq-ok (sub "data" payload) _ h in
      let (rankings, e2, h2) = >>=-eq-ok (field_of "rankings" body) _ h1 in
      let (items, e3, same) = >>=-eq-ok (looped rankings) _ h2 in
      subst (λ ranks. All IsVenueName (keys ranks)) (ok-injective same)
        (ranks_from-IsVenueName items [] tt)
