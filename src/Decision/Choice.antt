-- ===== src/Decision/Choice.antt =====
-- What `DecisionEngine.decide` guarantees of the decision that it returns.
use nofx_cats_py.Prelude.{
  ◌≡◌, ◌⊎◌, inl, inr, Bool, true, false, String, List, [], ◌∷◌, arith, All, All-map, if◌then◌else◌,
  Bool-cases, subst,
}
use nofx_cats_py.Result.{ok, raise, Result-cases}
use nofx_cats_py.Num.{Number, IsStrictOrder, ◌<?◌, ◌≤?◌, num}
use nofx_cats_py.Domain.Enums.{is_approved}
use nofx_cats_py.Domain.Signals.{SignalCandidate, AccountSnapshot, RiskDecision}
use nofx_cats_py.Risk.Kernel.{RiskKernel, evaluate}
use nofx_cats_py.Decision.Engine.{chosen, place_by_score, sorted_from, choose}

module _ {F : Type 0} ⦃n : Number F⦄ where
  module _ {κ} (P : SignalCandidate F → Type κ) where
    pub place_by_score-All :
        (x : SignalCandidate F) (ys : List (SignalCandidate F))
        → P x
        → All P ys
        → All P (place_by_score x ys)
    unfolding place_by_score
    place_by_score-All x [] px h = (px, tt)
    place_by_score-All x (y ∷ ys) px h = elim (Bool-cases (y.action_score <? x.action_score)) [
      | inl less ↦ rw less (px, h)
      | inr not_less ↦ rw not_less (h.0, place_by_score-All x ys px h.1)
    ]

    pub sorted_from-All :
        (xs done : List (SignalCandidate F)) → All P done → All P xs → All P (sorted_from done xs)
    unfolding sorted_from
    sorted_from-All [] done before h = before
    sorted_from-All (x ∷ xs) done before h =
        sorted_from-All xs (place_by_score x done) (place_by_score-All x done h.0 before) h.1

    All-place_by_score :
        (x : SignalCandidate F) (ys : List (SignalCandidate F))
        → All P (place_by_score x ys)
        → P x × All P ys
    unfolding place_by_score
    All-place_by_score x [] h = h
    All-place_by_score x (y ∷ ys) h = elim (Bool-cases (y.action_score <? x.action_score)) [
      | inl less ↦ rw less at h
      | inr not_less ↦
          let (hy, rest) = (rw not_less at h) in
          let (hx, hys) = All-place_by_score x ys rest in (hx, (hy, hys))
    ]

    pub All-sorted_from :
        (xs done : List (SignalCandidate F)) → All P (sorted_from done xs) → All P done × All P xs
    unfolding sorted_from
    All-sorted_from [] done h = (h, tt)
    All-sorted_from (x ∷ xs) done h =
        let (placed, later) = All-sorted_from xs (place_by_score x done) h in
        let (hx, before) = All-place_by_score x done placed in (before, (hx, later))

  -- No candidate stands behind one that scores less.
  abbrev IsSorted : List (SignalCandidate F) → Type 0
  IsSorted [] = Unit
  IsSorted (x ∷ xs) = All (λ y. (x.action_score <? y.action_score) ≡ false) xs × IsSorted xs

  module _ (order : IsStrictOrder F) where
    open order use {irrefl, trans}

    place_by_score-IsSorted :
        (x : SignalCandidate F) (ys : List (SignalCandidate F))
        → IsSorted ys
        → IsSorted (place_by_score x ys)
    unfolding place_by_score
    place_by_score-IsSorted x [] h = (tt, tt)
    place_by_score-IsSorted x (y ∷ ys) h = elim (Bool-cases (y.action_score <? x.action_score)) [
      | inl less ↦ rw less (
        (
          ground (arith, trans x.action_score y.action_score x.action_score, irrefl x.action_score),
          All-map (λ z e. ground (arith, trans y.action_score x.action_score z.action_score)) ys
              h.0,
        ),
        h,
      )
      | inr not_less ↦ rw not_less (
        place_by_score-All (λ z. (y.action_score <? z.action_score) ≡ false) x ys not_less h.0,
        place_by_score-IsSorted x ys h.1,
      )
    ]

    pub sorted_from-IsSorted :
        (xs done : List (SignalCandidate F)) → IsSorted done → IsSorted (sorted_from done xs)
    unfolding sorted_from
    sorted_from-IsSorted [] done h = h
    sorted_from-IsSorted (x ∷ xs) done h =
        sorted_from-IsSorted xs (place_by_score x done) (place_by_score-IsSorted x done h)

  module _ (kernel : RiskKernel F) (account : AccountSnapshot F) where
    -- The candidate has a positive score, and the risk kernel approves it.
    abbrev pub accepted : SignalCandidate F → Bool
    accepted signal =
        if signal.action_score ≤? num 0 then false else elim (evaluate kernel signal account) [
          | raise e ↦ false
          | ok risk ↦ is_approved risk.status
        ]

    -- `other` does not score more than `signal`, or was not acceptable.
    abbrev pub Yields : SignalCandidate F → SignalCandidate F → Type 0
    Yields signal other =
        ((signal.action_score <? other.action_score) ≡ false) ⊎ (accepted other ≡ false)

    -- A candidate that is approved.
    abbrev pub IsApproved : SignalCandidate F → RiskDecision F → Type 0
    IsApproved signal risk =
        ((signal.action_score ≤? num 0) ≡ false)
        × (evaluate kernel signal account ≡ ok risk)
        × (is_approved risk.status ≡ true)

    choose-cases :
        (x : SignalCandidate F) (xs : List (SignalCandidate F)) (reasons : List String)
        {signal : SignalCandidate F} {risk : RiskDecision F}
        → choose kernel account reasons (x ∷ xs) ≡ ok (chosen signal risk)
        → ((accepted x ≡ false)
            × ((more : List String) × (choose kernel account more xs ≡ ok (chosen signal risk))))
          ⊎ ((x ≡ signal) × IsApproved x risk)
    unfolding choose
    choose-cases x xs reasons {signal} {risk} h = elim (Bool-cases (x.action_score ≤? num 0)) [
      | inl low ↦ inl (ground arith, (_, rw low at h))
      | inr high ↦ elim (Result-cases (evaluate kernel x account)) [
        | inr (e, raised) ↦ absurd (ground arith)
        | inl (verdict, found) ↦ elim (Bool-cases (is_approved verdict.status)) [
          | inl granted ↦ inr (ground arith, ground arith)
          | inr denied ↦ inl (ground arith, (_, rw (high, found, denied) at h))
        ]
      ]
    ]

    pub choose-IsApproved :
        (xs : List (SignalCandidate F)) (reasons : List String) {signal : SignalCandidate F}
        {risk : RiskDecision F}
        → choose kernel account reasons xs ≡ ok (chosen signal risk)
        → IsApproved signal risk
    unfolding choose
    choose-IsApproved [] reasons h = cc
    choose-IsApproved (x ∷ xs) reasons {signal} {risk} h = elim (choose-cases x xs reasons h) [
      | inl (passed, (more, rest)) ↦ choose-IsApproved xs more rest
      | inr (same, good) ↦ subst (λ s. IsApproved s risk) same good
    ]

    pub choose-All :
        (P : SignalCandidate F → Type 0) (xs : List (SignalCandidate F)) (reasons : List String)
        {signal : SignalCandidate F} {risk : RiskDecision F}
        → All P xs
        → choose kernel account reasons xs ≡ ok (chosen signal risk)
        → P signal
    unfolding choose
    choose-All P [] reasons all h = cc
    choose-All P (x ∷ xs) reasons all h = elim (choose-cases x xs reasons h) [
      | inl (passed, (more, rest)) ↦ choose-All P xs more all.1 rest
      | inr (same, good) ↦ subst P same all.0
    ]

    pub choose-Yields :
        (order : IsStrictOrder F) (xs : List (SignalCandidate F)) (reasons : List String)
        {signal : SignalCandidate F} {risk : RiskDecision F}
        → IsSorted xs
        → choose kernel account reasons xs ≡ ok (chosen signal risk)
        → All (Yields signal) xs
    choose-Yields order [] reasons sorted h = tt
    choose-Yields order (x ∷ xs) reasons {signal} {risk} sorted h =
        elim (choose-cases x xs reasons h) [
          | inl (passed, (more, rest)) ↦ (inr passed, choose-Yields order xs more sorted.1 rest)
          | inr (same, good) ↦
              subst (λ s. All (Yields s) (x ∷ xs)) same
                (inl (order.irrefl x.action_score), All-map (λ z e. inl e) xs sorted.0)
        ]
