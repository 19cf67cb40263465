-- ===== src/Paper/Runs.antt =====
-- Whole runs of the paper account: any sequence of decisions and of markings to the market.
use nofx_cats_py.Prelude.{
  ℕ, ◌≡◌, refl, inl, inr, String, List, [], ◌∷◌, arith, string_eq, pair_eq, subst, sym, ap, ◌∙◌,
  Bool-cases,
}
use nofx_cats_py.Result.{Result, ok, ok-injective}
use nofx_cats_py.Raise.{◌>>=◌, >>=-eq-ok}
use nofx_cats_py.Dict.{Dict}
use nofx_cats_py.Num.{Number, Float, Decimal, Conversion, ◌=?◌, ◌+◌, num}
use nofx_cats_py.Domain.Positions.{PositionState}
use nofx_cats_py.Domain.Account.{total_equity, record_user_stream_event, mark_reconciled}
use nofx_cats_py.Domain.Signals.{FeatureVector, TradeDecision}
use nofx_cats_py.Paper.State.{PaperState, compared, account_state, usdt_balance}
use nofx_cats_py.Paper.Fill.{apply_decision}
use nofx_cats_py.Paper.Market.{
  Marking, mark_position, mark_positions, marked, marked_state, settle_funding, mark_to_market,
}
use nofx_cats_py.Paper.Books.{IsSynced, apply_fill-IsSynced}
use nofx_cats_py.Paper.Positions.{AreSound, apply_fill-AreSound, settled-frame}
use nofx_cats_py.Paper.Outcome.{apply_decision-cases}
use nofx_cats_py.Paper.Funding.{mark_to_market-IsSynced}

module _ {D F : Type 0} ⦃n : Number D⦄ ⦃q : Decimal D⦄ ⦃m : Number F⦄ ⦃f : Float F⦄
    ⦃c : Conversion D F⦄ where
  mark_positions-AreSound :
      (features : Dict String (FeatureVector F)) (interval : D) (ts : ℕ)
      (positions : Dict (String × String) (PositionState D)) (k : Marking D F)
      → AreSound positions
      → AreSound ((mark_positions features interval ts positions k).0)
  unfolding mark_positions mark_position marked
  mark_positions-AreSound features interval ts [] k h = tt
  mark_positions-AreSound features interval ts ((key, v) ∷ rest) k h = (
    ground (arith, h.0),
    mark_positions-AreSound features interval ts rest ((mark_position features interval ts v k).1)
        h.1,
  )

  marked_state-AreSound :
      (features : Dict String (FeatureVector F)) (ts : ℕ) (p : PaperState D F)
      → AreSound p.state.positions
      → AreSound (marked_state features ts p).0.state.positions
  unfolding marked_state
  marked_state-AreSound features ts p h =
      mark_positions-AreSound features p.funding_interval_hours ts p.state.positions _ h

  pub account_state-positions :
      (ts : ℕ) (p : PaperState D F) → (account_state ts p).state.positions ≡ p.state.positions
  unfolding account_state record_user_stream_event mark_reconciled
  account_state-positions ts p = refl

  settle_funding-positions :
      (delta : D) (ts : ℕ) (p : PaperState D F) {p' : PaperState D F}
      → settle_funding delta p ≡ ok p'
      → (account_state ts p').state.positions ≡ p.state.positions
  settle_funding-positions delta ts p {p'} h = elim (Bool-cases (delta =? num 0)) [
    | inl zero ↦
        account_state-positions ts p'
        ∙ ap (λ (s : PaperState D F). s.state.positions) (sym (ok-injective (rw zero at h)))
    | inr paid ↦
        (settled-frame ts (record p { funding_pnl = p.funding_pnl + delta }) (rw paid at h)).0
  ]

  -- Marking to the market keeps the positions sound.
  mark_to_market-AreSound :
      (features : Dict String (FeatureVector F)) (ts : ℕ) (p : PaperState D F) {p' : PaperState D F}
      → mark_to_market features ts p ≡ ok p'
      → AreSound p.state.positions
      → AreSound p'.state.positions
  unfolding mark_to_market
  mark_to_market-AreSound features ts p {p'} done h =
      let (loop, delta) = marked_state features ts p in
      let (settled, first, next) = >>=-eq-ok (settle_funding delta loop) _ done in
      let (seen, numbers, rest) = >>=-eq-ok (compared (total_equity settled.state)) _ next in
      let (b, found, same) = >>=-eq-ok (usdt_balance (account_state ts settled)) _ rest in
      let kept : p'.state.positions ≡ loop.state.positions =
        ap (λ (s : PaperState D F). s.state.positions) (sym (ok-injective same))
        ∙ settle_funding-positions delta ts loop first in
      rw kept (marked_state-AreSound features ts p h)

-- The calls that change the account.
pub data Call (D F : Type 0) : Type 0 where
  decided : TradeDecision F D → FeatureVector F → (ts : ℕ) → Call D F
  marked_at : Dict String (FeatureVector F) → (ts : ℕ) → Call D F

module _ {D F : Type 0} ⦃n : Number D⦄ ⦃q : Decimal D⦄ ⦃m : Number F⦄ ⦃f : Float F⦄
    ⦃c : Conversion D F⦄ where
  abbrev pub serve : Call D F → PaperState D F → Result (PaperState D F)
  serve (decided d feature ts) p = do (result, p') ← apply_decision d feature ts p; ok p'
  serve (marked_at features ts) p = mark_to_market features ts p

  -- The first call that raises ends the run.
  abbrev pub serve_all : List (Call D F) → PaperState D F → Result (PaperState D F)
  serve_all [] p = ok p
  serve_all (call ∷ calls) p = do p' ← serve call p; serve_all calls p'

  -- The books agree with the wallet, and the positions are sound.
  abbrev pub IsConsistent : PaperState D F → Type 0
  IsConsistent p = IsSynced p × AreSound p.state.positions

  pub serve-IsConsistent :
      (call : Call D F) (p : PaperState D F) {p' : PaperState D F}
      → serve call p ≡ ok p'
      → IsConsistent p
      → IsConsistent p'
  serve-IsConsistent (marked_at features ts) p h (synced, sound) = (
    mark_to_market-IsSynced features ts p synced h,
    mark_to_market-AreSound features ts p h sound,
  )
  serve-IsConsistent (decided d feature ts) p {p'} h (synced, sound) =
      let ((r, after), run, same) = >>=-eq-ok (apply_decision d feature ts p) _ h in
      subst IsConsistent (ok-injective same) (elim (apply_decision-cases d feature ts p run) [
        | inl (why, none_filled, kept) ↦ subst IsConsistent (sym kept) (synced, sound)
        | inr (risk, fill, done) ↦ (
          apply_fill-IsSynced d risk ts fill p done,
          apply_fill-AreSound d risk ts fill p done sound,
        )
      ])

  -- Any run of decisions and markings that raises nothing keeps the wallet in agreement with the books,
  -- each position under its own key, and each direction the sign of the position's quantity.
  pub serve_all-IsConsistent :
      (calls : List (Call D F)) (p : PaperState D F) {p' : PaperState D F}
      → serve_all calls p ≡ ok p'
      → IsConsistent p
      → IsConsistent p'
  serve_all-IsConsistent [] p h good = subst IsConsistent (ok-injective h) good
  serve_all-IsConsistent (call ∷ calls) p h good =
      let (next, first, rest) = >>=-eq-ok (serve call p) (serve_all calls) h in
      serve_all-IsConsistent calls next rest (serve-IsConsistent call p first good)
