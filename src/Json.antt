-- ===== src/Json.antt =====
-- The JSON values that the venue and the data source send, as Python reads them: `get`, truth, `str`.
use nofx_cats_py.Prelude.{
  Bool, true, false, not, Option, none, some, String, ◌==◌, string_eq, if◌then◌else◌,
}
use nofx_cats_py.Prelude.Int.{ℤ, pos, beq_ℤ}
use nofx_cats_py.Num.{Number, ◌=?◌, num}

mutual
  pub data Json (F : Type 0) : Type 0 where
    null : Json F
    bool : Bool → Json F
    int : ℤ → Json F
    real : F → Json F
    text : String → Json F
    array : Items F → Json F
    object : Fields F → Json F

  pub data Items (F : Type 0) : Type 0 where
    nil : Items F
    cons : Json F → Items F → Items F

  pub data Fields (F : Type 0) : Type 0 where
    end : Fields F
    field : String → Json F → Fields F → Fields F

-- `str(v)` of a value that is no text: the library's spelling of numbers and containers.
pub record Spelling (F : Type 0) : Type 0 where
  pub spell : Json F → String

module _ {F : Type 0} where
  unfoldable pub find : String → Fields F → Option (Json F)
  find k end = none
  find k (field j v rest) = if j == k then some v else find k rest

  -- `v.get(k)`, and nothing where `v` is no dict.
  unfoldable pub get : String → Json F → Option (Json F)
  unfolding find
  get k (object fields) = find k fields
  get k _ = none

  abbrev pub is_object : Json F → Bool
  is_object (object fields) = true
  is_object _ = false

  -- `data.get("data", data)`
  abbrev pub unwrapped : Json F → Json F
  unwrapped v = elim (get "data" v) [ none ↦ v | some w ↦ w ]

module _ {F : Type 0} ⦃n : Number F⦄ where
  -- `bool(v)`
  unfoldable pub truth : Json F → Bool
  truth null = false
  truth (bool b) = b
  truth (int i) = not (beq_ℤ i (pos 0))
  truth (real x) = not (x =? num 0)
  truth (text s) = not (s == "")
  truth (array nil) = false
  truth (array (cons v rest)) = true
  truth (object end) = false
  truth (object (field k v rest)) = true

  -- `a or b`, where a missing key reads as `None`.
  unfoldable pub or_json : Option (Json F) → Option (Json F) → Option (Json F)
  unfolding truth
  or_json none b = b
  or_json (some v) b = if truth v then some v else b

module _ {F : Type 0} ⦃s : Spelling F⦄ where
  -- `str(v)`
  unfoldable pub str : Json F → String
  str (text t) = t
  str v = s.spell v

  -- `str(v) if v is not None else default`
  unfoldable pub str_or : Option (Json F) → Option String → Option String
  unfolding str
  str_or none default = default
  str_or (some null) default = default
  str_or (some v) default = some (str v)
