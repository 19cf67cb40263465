-- ===== src/Dict.antt =====
-- Python's `dict`: entries in insertion order, the first one written standing where it was.
use mathlib.Core.Option.{some-injective}
use nofx_cats_py.Prelude.{
  subst, ◌≡◌, refl, Bool, Option, none, some, List, [], ◌∷◌, arith, Eq, ◌==◌, All, is_some,
  if◌then◌else◌, inl, inr, Bool-cases,
}

abbrev pub Dict {ℓ κ} : Type ℓ → Type κ → Type (ℓ ⊔ κ)
Dict K V = List (K × V)

module _ {ℓ κ} {K : Type ℓ} {V : Type κ} where
  -- `d.values()`
  abbrev pub values : Dict K V → List V
  values [] = []
  values ((j, v) ∷ d) = v ∷ values d

  -- `d.keys()`
  abbrev pub keys : Dict K V → List K
  keys [] = []
  keys ((j, v) ∷ d) = j ∷ keys d

module _ {ℓ κ} {K : Type ℓ} {V : Type κ} ⦃e : Eq K⦄ where
  -- `d.get(k)`
  unfoldable pub lookup : K → Dict K V → Option V
  lookup k [] = none
  lookup k ((j, v) ∷ d) = if j == k then some v else lookup k d

  -- `k in d`
  abbrev pub contains : K → Dict K V → Bool
  contains k d = is_some (lookup k d)

  -- `d[k] = v`
  unfoldable pub insert : K → V → Dict K V → Dict K V
  insert k v [] = (k, v) ∷ []
  insert k v ((j, w) ∷ d) = if j == k then (j, v) ∷ d else (j, w) ∷ insert k v d

  -- `d.pop(k, None)`, for the entries that stay.
  unfoldable pub remove : K → Dict K V → Dict K V
  remove k [] = []
  remove k ((j, v) ∷ d) = let rest = remove k d in if j == k then rest else (j, v) ∷ rest

  -- `{k: v for …}` from the pairs that the comprehension makes.
  unfoldable pub insert_all : List (K × V) → Dict K V → Dict K V
  insert_all [] d = d
  insert_all ((k, v) ∷ rest) d = insert_all rest (insert k v d)

  pub lookup-insert :
      (k j : K) (v : V) (d : Dict K V)
      → lookup j (insert k v d) ≡ (if k == j then some v else lookup j d)
  unfolding lookup insert
  lookup-insert k j v [] = refl
  lookup-insert k j v ((i, w) ∷ d) =
      ground (arith, e.beq_iff k j, e.beq_iff i k, e.beq_iff i j, lookup-insert k j v d)

  pub lookup-insert_self : (k : K) (v : V) (d : Dict K V) → lookup k (insert k v d) ≡ some v
  lookup-insert_self k v d = ground (arith, lookup-insert k k v d, e.beq_iff k k)

  pub lookup-remove :
      (k j : K) (d : Dict K V) → lookup j (remove k d) ≡ (if k == j then none else lookup j d)
  unfolding lookup remove
  lookup-remove k j [] = ground arith
  lookup-remove k j ((i, v) ∷ d) =
      ground (arith, lookup-remove k j d, e.beq_iff i k, e.beq_iff i j, e.beq_iff k j)

  -- What holds of every value written and of every value kept holds of all values.
  pub All-insert {μ} :
      (P : V → Type μ) (k : K) (v : V) (d : Dict K V)
      → P v
      → All P (values d)
      → All P (values (insert k v d))
  unfolding insert
  All-insert P k v [] p h = (p, tt)
  All-insert P k v ((j, w) ∷ d) p h = elim (Bool-cases (j == k)) [
    | inl same ↦ rw same (p, h.1)
    | inr other ↦ rw other (h.0, All-insert P k v d p h.1)
  ]

  pub All-insert_all {μ} :
      (P : V → Type μ) (entries : List (K × V)) (d : Dict K V)
      → All P (values entries)
      → All P (values d)
      → All P (values (insert_all entries d))
  unfolding insert_all
  All-insert_all P [] d new old = old
  All-insert_all P ((k, v) ∷ rest) d new old =
      All-insert_all P rest (insert k v d) new.1 (All-insert P k v d new.0 old)

  -- What holds of all values holds of the one that is found.
  pub All-lookup {μ} :
      (P : V → Type μ) (k : K) (d : Dict K V) {v : V} → All P (values d) → lookup k d ≡ some v → P v
  unfolding lookup
  All-lookup P k [] h found = cc
  All-lookup P k ((j, w) ∷ d) {v} h found = elim (Bool-cases (j == k)) [
    | inl same ↦ subst P (some-injective _ _ (rw same at found)) h.0
    | inr other ↦ All-lookup P k d h.1 (rw other at found)
  ]
