-- ===== src/Nofx/Universe.antt =====
-- src/cats_py/services/universe.py: the symbols that two answers of the data source name.
use Prim.Native.String.{String}
use nofx_cats_py.Prelude.{
  ◌≡◌, refl, Bool, true, false, ◌&&◌, ◌||◌, not, concat, none, some, List, [], ◌∷◌, ◌++◌, any,
  string_eq, ◌==◌, ap, sym, ◌∙◌, arith, if◌then◌else◌, Option, Bool-cases, Option-cases, inl, inr,
}
use nofx_cats_py.Result.{other_error, Result, ok, raise, ok-injective}
use nofx_cats_py.Raise.{◌>>=◌, >>=-eq-ok}
use nofx_cats_py.Json.{
  Json, null, bool, int, real, is_object, Items, text, array, object, nil, cons, end, field, get,
}
use nofx_cats_py.User.Values.{as_text}
use nofx_cats_py.Nofx.Values.{field_of, sub, ends_with_usdt, usdt_symbol}

-- `symbol in seen`
abbrev pub contains : (symbol : String) → List String → Bool
contains symbol seen = any (λ other. other == symbol) seen

module _ {F : Type 0} where
  -- What the loops go through, which ask every item for a field: the characters of a text and the keys
  -- of a dict have none.
  unfoldable pub items_of : Option (Json F) → Result (Items F)
  items_of none = ok nil
  items_of (some (array items)) = ok items
  items_of (some (text s)) = if s == "" then ok nil else raise (other_error "AttributeError")
  items_of (some (object end)) = ok nil
  items_of (some (object (field key v rest))) = raise (other_error "AttributeError")
  items_of (some v) = raise (other_error "TypeError")

  unfoldable pub named : (key : String) → (String → String) → Items F → Result (List String)
  named key change nil = ok []
  named key change (cons item rest) = do
    symbol ← field_of key item
    symbols ← named key change rest
    ok (elim (as_text symbol) [ none ↦ symbols | some s ↦ change s ∷ symbols ])

  -- `symbols`, with what both loops append to it.
  unfoldable pub named_symbols : (ai500_payload ai300_payload : Json F) → Result (List String)
  unfolding items_of named
  named_symbols ai500_payload ai300_payload = do
    body ← sub "data" ai500_payload
    coins ← field_of "coins" body
    items ← items_of coins
    pairs ← named "pair" (λ s. s) items
    ai300_body ← sub "data" ai300_payload
    ai300_coins ← field_of "coins" ai300_body
    ai300_items ← items_of ai300_coins
    symbols ← named "symbol" usdt_symbol ai300_items
    ok (pairs ++ symbols)

-- What the last loop appends to `deduped`, where it has `seen` already.
unfoldable pub deduped : (symbols seen : List String) → List String
deduped [] seen = []
deduped (symbol ∷ rest) seen =
    let known = deduped rest seen in
    let fresh = deduped rest (symbol ∷ seen) in
    if contains symbol seen then known else symbol ∷ fresh

module _ {F : Type 0} where
  unfoldable pub build : (ai500_payload ai300_payload : Json F) → Result (List String)
  unfolding named_symbols deduped
  build ai500_payload ai300_payload = do
    symbols ← named_symbols ai500_payload ai300_payload
    ok (deduped symbols [])

abbrev pub is_unique : List String → Bool
is_unique [] = true
is_unique (symbol ∷ rest) = not (contains symbol rest) && is_unique rest

contains-cong :
    (x y : String) (seen : List String) → (x == y) ≡ true → contains x seen ≡ contains y seen
contains-cong x y seen same = ap (λ s. contains s seen) ((string_eq.beq_iff x y).0 same)

contains-deduped :
    (symbol : String) (symbols seen : List String)
    → contains symbol (deduped symbols seen)
      ≡ (not (contains symbol seen) && contains symbol symbols)
unfolding deduped
contains-deduped symbol [] seen = ground arith
contains-deduped symbol (x ∷ rest) seen = elim (Bool-cases (x == symbol)) [
  | inl same ↦
      let moved = contains-cong x symbol seen same in
      ground (arith, same, moved, contains-deduped symbol rest seen)
  | inr other ↦
      ground
        (arith, other, contains-deduped symbol rest seen, contains-deduped symbol rest (x ∷ seen))
]

deduped-is_unique : (symbols seen : List String) → is_unique (deduped symbols seen) ≡ true
unfolding deduped
deduped-is_unique [] seen = refl
deduped-is_unique (x ∷ rest) seen =
    let itself = (string_eq.beq_iff x x).1 refl in
    ground (
      arith,
      itself,
      deduped-is_unique rest seen,
      deduped-is_unique rest (x ∷ seen),
      contains-deduped x rest (x ∷ seen),
    )

contains-append :
    (symbol : String) (xs ys : List String)
    → contains symbol (xs ++ ys) ≡ (contains symbol xs || contains symbol ys)
contains-append symbol [] ys = ground arith
contains-append symbol (x ∷ xs) ys = ground (arith, contains-append symbol xs ys)

-- The name of a coin as a trading pair against USDT.
abbrev pub against_usdt : String → String
against_usdt s = if ends_with_usdt s then s else concat (s ∷ "USDT" ∷ [])

module _ {F : Type 0} where
  -- The list that a payload carries under `data` and `coins`.
  abbrev pub HasCoins : Json F → Items F → Type 0
  HasCoins payload items =
      (body : Json F) × (get "data" payload ≡ some body) × (get "coins" body ≡ some (array items))

  -- Whether an item has, under the key, a text that is `symbol` once it is changed.
  abbrev pub mentions :
      (key : String) (change : String → String) → Items F → (symbol : String) → Bool
  mentions key change nil symbol = false
  mentions key change (cons item rest) symbol =
      (elim (as_text (get key item)) [ none ↦ false | some s ↦ change s == symbol ])
      || mentions key change rest symbol

  field_of-eq-ok :
      (key : String) (v : Json F) {value : Option (Json F)}
      → field_of key v ≡ ok value
      → get key v ≡ value
  field_of-eq-ok key v h = ground arith

  get-is_object : (key : String) (v : Json F) {w : Json F} → get key v ≡ some w → is_object v ≡ true
  unfolding get
  get-is_object key (object fields) h = refl
  get-is_object key null h = cc
  get-is_object key (bool b) h = cc
  get-is_object key (int m) h = cc
  get-is_object key (real x) h = cc
  get-is_object key (text t) h = cc
  get-is_object key (array items) h = cc

  get-sub :
      (key : String) (v w : Json F)
      → get key v ≡ some w
      → (sub key v ≡ ok w) × (field_of key v ≡ ok (some w))
  get-sub key v w h = let object_like = get-is_object key v h in (ground arith, ground arith)

  contains-named :
      (key : String) (change : String → String) (items : Items F) (symbol : String)
      {symbols : List String}
      → named key change items ≡ ok symbols
      → contains symbol symbols ≡ mentions key change items symbol
  unfolding named
  contains-named key change nil symbol h = ap (contains symbol) (sym (ok-injective h))
  contains-named key change (cons item rest) symbol h =
      let (value, e1, h1) = >>=-eq-ok (field_of key item) _ h in
      let (symbols, e2, h2) = >>=-eq-ok (named key change rest) _ h1 in
      let later = contains-named key change rest symbol e2 in
      let read = field_of-eq-ok key item e1 in
      elim (Option-cases (as_text value)) [
        | inl other ↦
            ap (contains symbol) (sym (ok-injective (rw other at h2))) ∙ rw (read, other) later
        | inr (t, is_text) ↦
            ap (contains symbol) (sym (ok-injective (rw is_text at h2)))
            ∙ rw (read, is_text) (ap (λ b. (change t == symbol) || b) later)
      ]

  named_symbols-eq-ok :
      (ai500_payload ai300_payload : Json F) (coins others : Items F) {symbols : List String}
      → HasCoins ai500_payload coins
      → HasCoins ai300_payload others
      → named_symbols ai500_payload ai300_payload ≡ ok symbols
      → (pairs : List String) × (bases : List String) × (named "pair" (λ s. s) coins ≡ ok pairs)
        × (named "symbol" usdt_symbol others ≡ ok bases)
        × (symbols ≡ pairs ++ bases)
  unfolding named_symbols items_of
  named_symbols-eq-ok ai500_payload ai300_payload coins others (body, under, list)
        (body', under', list') h =
      let (_, coins_of) = get-sub "coins" body (array coins) list in
      let (inner, _) = get-sub "data" ai500_payload body under in
      let (_, coins_of') = get-sub "coins" body' (array others) list' in
      let (inner', _) = get-sub "data" ai300_payload body' under' in
      let (pairs, e2, rest) =
        >>=-eq-ok (named "pair" (λ s. s) coins) _ (rw (inner, coins_of, named_symbols) at h) in
      let (bases, e3, last) =
        >>=-eq-ok (named "symbol" usdt_symbol others) _ (rw (inner', coins_of') at rest) in
      (pairs, bases, e2, e3, sym (ok-injective last))

  -- Where both payloads carry a list of coins, the universe has no symbol twice, and it has exactly those
  -- symbols that a coin of the first has as its pair, as it stands there, or that a coin of the second
  -- has as its symbol, with USDT behind it if it does not end so.
  pub build-is_unique :
      (ai500_payload ai300_payload : Json F) (coins others : Items F) {universe : List String}
      → HasCoins ai500_payload coins
      → HasCoins ai300_payload others
      → build ai500_payload ai300_payload ≡ ok universe
      → (is_unique universe ≡ true)
        × ((symbol : String)
            → contains symbol universe ≡ (
                mentions "pair" (λ s. s) coins symbol
                || mentions "symbol" against_usdt others symbol))
  unfolding build
  build-is_unique ai500_payload ai300_payload coins others first second done =
      let (symbols, e1, h1) = >>=-eq-ok (named_symbols ai500_payload ai300_payload) _ done in
      let same = ok-injective h1 in
      let (pairs, bases, e2, e3, joined) =
        named_symbols-eq-ok ai500_payload ai300_payload coins others first second e1 in
      (
        ap is_unique (sym same) ∙ deduped-is_unique symbols [],
        λ symbol.
            ap (contains symbol) (sym same)
            ∙ contains-deduped symbol symbols []
            ∙ ap (contains symbol) joined
            ∙ contains-append symbol pairs bases
            ∙ rw
                (
                  contains-named "pair" (λ s. s) coins symbol e2,
                  contains-named "symbol" usdt_symbol others symbol e3,
                )
                refl,
      )
