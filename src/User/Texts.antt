-- ===== src/User/Texts.antt =====
-- The texts of the enumerations, written and read back.
use mathlib.Core.Option.{some-injective}
use nofx_cats_py.Prelude.{
  ◌≡◌, ◌↔◌, refl, sym, ap, Option, none, some, String, List, [], ◌∷◌, inl, inr, string_eq, ◌==◌,
  subst, Bool-cases,
}
use nofx_cats_py.Json.{Json, null, bool, int, real, text, array, object}
use nofx_cats_py.Domain.Enums.{
  OrderType, limit, market, stop, stop_market, take_profit, take_profit_market,
  trailing_stop_market, order_type_value, OrderLifecycleStatus, new, partially_filled, filled,
  canceled, expired, refused, triggered, unknown, lifecycle_value,
}
use nofx_cats_py.User.Values.{
  member_of, order_types, lifecycle_statuses, parse_order_type, parse_order_status,
}

member_of-value :
    {A : Type 0} (value_of : A → String) (members : List A) (s : String) {a : A}
    → member_of value_of members s ≡ some a
    → value_of a ≡ s
unfolding member_of
member_of-value value_of [] s h = cc
member_of-value value_of (b ∷ rest) s {a} h = elim (Bool-cases (value_of b == s)) [
  | inl here ↦
      subst (λ c. value_of c ≡ s) (some-injective _ _ (rw here at h))
        ((string_eq.beq_iff (value_of b) s).0 here)
  | inr later ↦ member_of-value value_of rest s (rw later at h)
]

type_read : (t : OrderType) → member_of order_type_value order_types (order_type_value t) ≡ some t
unfolding member_of
type_read limit = refl
type_read market = refl
type_read stop = refl
type_read stop_market = refl
type_read take_profit = refl
type_read take_profit_market = refl
type_read trailing_stop_market = refl

status_read :
    (s : OrderLifecycleStatus)
    → member_of lifecycle_value lifecycle_statuses (lifecycle_value s) ≡ some s
unfolding member_of
status_read new = refl
status_read partially_filled = refl
status_read filled = refl
status_read canceled = refl
status_read expired = refl
status_read refused = refl
status_read triggered = refl
status_read unknown = refl

module _ {F : Type 0} where
  type_text :
      (v : Option (Json F)) (t : OrderType)
      → parse_order_type v ≡ some t
      → v ≡ some (text (order_type_value t))
  unfolding parse_order_type
  type_text none t h = cc
  type_text (some null) t h = cc
  type_text (some (bool b)) t h = cc
  type_text (some (int i)) t h = cc
  type_text (some (real x)) t h = cc
  type_text (some (text s)) t h =
      ap (λ s. some (text s)) (sym (member_of-value order_type_value order_types s h))
  type_text (some (array items)) t h = cc
  type_text (some (object fields)) t h = cc

  -- An order type is read from its own text and from nothing else; a status is read from its own text.
  pub parse_order_type-order_type_value :
      (v : Option (Json F)) (t : OrderType) (s : OrderLifecycleStatus)
      → ((parse_order_type v ≡ some t) ↔ (v ≡ some (text (order_type_value t))))
        × (parse_order_status {F = F} (some (text (lifecycle_value s))) ≡ s)
  unfolding parse_order_type parse_order_status
  parse_order_type-order_type_value v t s =
      ((type_text v t, λ same. rw same (type_read t)), rw (status_read s) refl)
