-- ===== src/Tests/User.antt =====
-- Events of the user stream on concrete messages.
use nofx_cats_py.Prelude.{◌≡◌, ◌↔◌, refl, Option, some, ◌==◌, string_eq, pair_eq, if◌then◌else◌}
use nofx_cats_py.Prelude.Int.{ℤ, pos}
use nofx_cats_py.Result.{ok, raise, value_error}
use nofx_cats_py.Num.{fixed}
use nofx_cats_py.Json.{Json, int, text, array, object, nil, cons, end, field}
use nofx_cats_py.Domain.Enums.{stop_market, filled, order_type_value, lifecycle_value}
use nofx_cats_py.Paper.State.{direction_for_quantity}
use nofx_cats_py.Paper.Positions.{AreSound}
use nofx_cats_py.User.Values.{Parsing, IntParsing, Timing, parse_order_type, parse_order_status}
use nofx_cats_py.User.Events.{apply}
use nofx_cats_py.User.Frame.{SameControl, apply-AreSound}
use nofx_cats_py.User.Texts.{parse_order_type-order_type_value}
use nofx_cats_py.Tests.Samples.{whole, account, sample_spelling}

-- A library that reads the numbers 2 and 100 only.
instance abbrev pub sample_parsing : Parsing ℤ
sample_parsing = record {
  parse_decimal = λ s.
      if s == "2"
      then ok (whole 2)
      else if s == "100"
      then ok (whole 100)
      else raise (value_error "no number");
}

instance abbrev pub sample_integers : IntParsing
sample_integers = record { parse_int = λ s. ok (pos 1) }

instance abbrev pub sample_timing : Timing ℤ
sample_timing = record { parse_float = λ v. ok (whole 5); from_timestamp = λ f. ok 5 }

-- An account update with a balance and with a position whose price is no number.
abbrev update : Json ℤ
update = object (
    field "e" (text "ACCOUNT_UPDATE") (
      field "E" (int (pos 5)) (
        field "a"
          (object (
            field "B"
              (array (cons (object (field "a" (text "USDT") (field "wb" (text "100") end))) nil))
              (field "P"
                (array (
                  cons
                    (object (
                      field "s" (text "ETHUSDT")
                        (field "pa" (text "2") (field "ep" (text "x") end))))
                    nil))
                end)))
          end)))

account-AreSound : AreSound account.positions
unfolding direction_for_quantity
account-AreSound = ((refl, refl), tt)

apply-AreSound_example :
    AreSound (apply 7 update account).0.positions × SameControl account (apply 7 update account).0
apply-AreSound_example = apply-AreSound 7 update account account-AreSound

abbrev stop_text : Option (Json ℤ)
stop_text = some (text "STOP_MARKET")

parse_order_type-order_type_value_example :
    ((parse_order_type stop_text ≡ some stop_market)
      ↔ (stop_text ≡ some (text (order_type_value stop_market))))
    × (parse_order_status {F = ℤ} (some (text (lifecycle_value filled))) ≡ filled)
parse_order_type-order_type_value_example =
    parse_order_type-order_type_value stop_text stop_market filled
