-- ===== src/Runtime/Micro.antt =====
-- What the runtime mode guarantees: which modes start, and how `live_micro` narrows the constitution.
use nofx_cats_py.Prelude.{
  ◌≡◌, ◌≢◌, ◌<◌, ◌≤◌, String, string_eq, sym, ap, ◌∙◌, false, some, [], ◌⊎◌, inl, inr, arith,
  Option-cases, subst,
}
use nofx_cats_py.Result.{ok, ok-injective}
use nofx_cats_py.Raise.{>>=-eq-ok}
use nofx_cats_py.Dict.{Dict, lookup, insert, lookup-insert}
use nofx_cats_py.Num.{Number, IsStrictOrder, ◌*◌, ◌/◌, num, min}
use nofx_cats_py.Domain.Enums.{SymbolTier, core, liquid_alt, experimental, approved, tier_eq}
use nofx_cats_py.Domain.Signals.{SignalCandidate, AccountSnapshot, RiskDecision}
use nofx_cats_py.Risk.Constitution.{RiskPolicy, SymbolTierPolicy}
use nofx_cats_py.Risk.Kernel.{RiskKernel, evaluate, tier_of}
use nofx_cats_py.Risk.Gates.{approved_passed_gates}
use nofx_cats_py.Risk.Bounds.{Within, approved-Within_caps}
use nofx_cats_py.Runtime.Settings.{
  paper, live_micro, live, RuntimeSettings, AppConfig, SymbolConfig,
}
use nofx_cats_py.Runtime.Modes.{
  RuntimeModeSummary, mode_beq, is_missing, missing_credentials, check_live_micro,
  build_runtime_mode_summary, change_tier, micro_core, micro_policy, disabled,
  apply_runtime_risk_overrides, build_risk_kernel,
}

-- A credential that is set, to something else than the placeholder of the example file.
abbrev pub IsGiven : String → Type 0
IsGiven value = (value ≢ "") × (value ≢ "replace_me")

is_missing-IsGiven : (value : String) → is_missing value ≡ false → IsGiven value
is_missing-IsGiven value e = (
  λ empty. absurd (ground (arith, (string_eq.beq_iff value "").1 empty)),
  λ placeholder. absurd (ground (arith, (string_eq.beq_iff value "replace_me").1 placeholder)),
)

missing_credentials_facts :
    (r : RuntimeSettings)
    → missing_credentials r ≡ []
    → (is_missing r.nofx_api_key ≡ false)
      × (is_missing r.binance_api_key ≡ false)
      × (is_missing r.binance_api_secret ≡ false)
unfolding missing_credentials
missing_credentials_facts r h = ground arith

module _ {F : Type 0} ⦃n : Number F⦄ where
  build_runtime_mode_summary-eq-ok :
      (r : RuntimeSettings) (app : AppConfig F) (symbols : SymbolConfig) {s : RuntimeModeSummary F}
      → build_runtime_mode_summary r app symbols ≡ ok s
      → (r.mode ≢ live)
        × (r.mode ≡ app.mode)
        × (s.mode ≡ r.mode)
        × (s.paper_execution ≡ mode_beq r.mode paper)
        × (s.live_order_submission ≡ mode_beq r.mode live_micro)
        × ((s.live_order_submission ≡ false) ⊎ ((missing_credentials r ≡ []) × (symbols.core ≢ [])))
  unfolding build_runtime_mode_summary check_live_micro
  build_runtime_mode_summary-eq-ok r app symbols h = ground arith

  -- A summary is for the mode that both settings name, which is never `live`. Orders are submitted in
  -- `live_micro` alone, with all three credentials given and a core symbol, and the paper account is used in
  -- `paper` alone.
  pub build_runtime_mode_summary_lem :
      (r : RuntimeSettings) (app : AppConfig F) (symbols : SymbolConfig) {s : RuntimeModeSummary F}
      → build_runtime_mode_summary r app symbols ≡ ok s
      → (r.mode ≢ live)
        × (r.mode ≡ app.mode)
        × (s.mode ≡ r.mode)
        × (s.paper_execution ≡ mode_beq r.mode paper)
        × (s.live_order_submission ≡ mode_beq r.mode live_micro)
        × ((s.live_order_submission ≡ false)
            ⊎ (IsGiven r.nofx_api_key
                × IsGiven r.binance_api_key
                × IsGiven r.binance_api_secret
                × (symbols.core ≢ [])))
  build_runtime_mode_summary_lem r app symbols h =
      let (started, same, mode, simulated, submits, checked) =
        build_runtime_mode_summary-eq-ok r app symbols h in
      (
        started,
        same,
        mode,
        simulated,
        submits,
        elim checked [
          | inl off ↦ inl off
          | inr (none_missing, core_given) ↦
              let (nofx, key, secret) = missing_credentials_facts r none_missing in
              inr (
                is_missing-IsGiven r.nofx_api_key nofx,
                is_missing-IsGiven r.binance_api_key key,
                is_missing-IsGiven r.binance_api_secret secret,
                core_given,
              )
        ],
      )

  change_tier-eq-ok :
      (tier : SymbolTier) (change : SymbolTierPolicy F → SymbolTierPolicy F)
      (tiers : Dict SymbolTier (SymbolTierPolicy F)) {after : Dict SymbolTier (SymbolTierPolicy F)}
      → change_tier tier change tiers ≡ ok after
      → (tp : SymbolTierPolicy F) × (lookup tier tiers ≡ some tp)
        × (after ≡ insert tier (change tp) tiers)
  unfolding change_tier
  change_tier-eq-ok tier change tiers h = elim (Option-cases (lookup tier tiers)) [
    | inl missing ↦ absurd (ground arith)
    | inr (tp, found) ↦ (tp, found, ground arith)
  ]

  abbrev narrowed :
      (tp alt trial : SymbolTierPolicy F)
      → Dict SymbolTier (SymbolTierPolicy F)
      → Dict SymbolTier (SymbolTierPolicy F)
  narrowed tp alt trial tiers =
      insert experimental (disabled trial)
        (insert liquid_alt (disabled alt) (insert core (micro_core tp) tiers))

  lookup-narrowed :
      (tp alt trial : SymbolTierPolicy F) (tiers : Dict SymbolTier (SymbolTierPolicy F))
      → (lookup core (narrowed tp alt trial tiers) ≡ some (micro_core tp))
        × (lookup liquid_alt (narrowed tp alt trial tiers) ≡ some (disabled alt))
        × (lookup experimental (narrowed tp alt trial tiers) ≡ some (disabled trial))
  lookup-narrowed tp alt trial tiers =
      let t1 = insert core (micro_core tp) tiers in
      let t2 = insert liquid_alt (disabled alt) t1 in
      let last = λ (tier : SymbolTier). lookup-insert experimental tier (disabled trial) t2 in
      let middle = λ (tier : SymbolTier). lookup-insert liquid_alt tier (disabled alt) t1 in
      (
        last core ∙ (middle core ∙ lookup-insert core core (micro_core tp) tiers),
        last liquid_alt ∙ middle liquid_alt,
        last experimental,
      )

  -- The kernel of `live_micro`: at most one position, the core tier narrowed, the other two disabled.
  build_risk_kernel-micro :
      (policy : RiskPolicy F) (tiers : Dict SymbolTier (SymbolTierPolicy F))
      (symbols : SymbolConfig) {k : RiskKernel F}
      → build_risk_kernel policy tiers live_micro symbols ≡ ok k
      → (tp : SymbolTierPolicy F) × (alt : SymbolTierPolicy F) × (trial : SymbolTierPolicy F)
        × (lookup core tiers ≡ some tp)
        × (k.policy ≡ micro_policy policy)
        × (lookup core k.tier_policies ≡ some (micro_core tp))
        × (lookup liquid_alt k.tier_policies ≡ some (disabled alt))
        × (lookup experimental k.tier_policies ≡ some (disabled trial))
  unfolding build_risk_kernel apply_runtime_risk_overrides
  build_risk_kernel-micro policy tiers symbols {k} h =
      let (both, overridden, built) =
        >>=-eq-ok (apply_runtime_risk_overrides policy tiers live_micro) _ h in
      let (t1, first, rest1) = >>=-eq-ok (change_tier core micro_core tiers) _ overridden in
      let (t2, second, rest2) = >>=-eq-ok (change_tier liquid_alt disabled t1) _ rest1 in
      let (t3, third, same) = >>=-eq-ok (change_tier experimental disabled t2) _ rest2 in
      let (tp, found, e1) = change_tier-eq-ok core micro_core tiers first in
      let (alt, found_alt, e2) = change_tier-eq-ok liquid_alt disabled t1 second in
      let (trial, found_trial, e3) = change_tier-eq-ok experimental disabled t2 third in
      let tables : k.tier_policies ≡ t3 =
        ap (λ (k : RiskKernel F). k.tier_policies) (sym (ok-injective built))
        ∙ ap (λ (b : RiskPolicy F × Dict SymbolTier (SymbolTierPolicy F)). b.1)
            (sym (ok-injective same)) in
      let policies : k.policy ≡ micro_policy policy =
        ap (λ (k : RiskKernel F). k.policy) (sym (ok-injective built))
        ∙ ap (λ (b : RiskPolicy F × Dict SymbolTier (SymbolTierPolicy F)). b.0)
            (sym (ok-injective same)) in
      let whole : k.tier_policies ≡ narrowed tp alt trial tiers =
        tables
        ∙ (e3
            ∙ ap (insert experimental (disabled trial))
                (e2 ∙ ap (insert liquid_alt (disabled alt)) e1)) in
      let (in_core, in_alt, in_trial) = lookup-narrowed tp alt trial tiers in
      (
        tp,
        alt,
        trial,
        found,
        policies,
        ap (lookup core) whole ∙ in_core,
        ap (lookup liquid_alt) whole ∙ in_alt,
        ap (lookup experimental) whole ∙ in_trial,
      )

  -- In `live_micro` the risk kernel approves only while no position is open, only symbols of the core
  -- tier, at a leverage of no more than the tier's and 2, and for no more of the equity than the tier's
  -- share and 5 percent.
  pub live_micro-Within_caps :
      (order : IsStrictOrder F) (policy : RiskPolicy F)
      (tiers : Dict SymbolTier (SymbolTierPolicy F)) (symbols : SymbolConfig) {k : RiskKernel F}
      (signal : SignalCandidate F) (a : AccountSnapshot F) {d : RiskDecision F}
      → build_risk_kernel policy tiers live_micro symbols ≡ ok k
      → evaluate k signal a ≡ ok d
      → d.status ≡ approved
      → (tp : SymbolTierPolicy F) × (lookup core tiers ≡ some tp)
        × (tier_of k signal.symbol ≡ core)
        × (a.open_positions ≡ 0)
        × Within (min tp.max_leverage (num 2)) d.approved_leverage
        × Within (a.equity * (min tp.max_symbol_notional_pct (num 5) / num 100)) d.approved_notional
  live_micro-Within_caps order policy tiers symbols {k} signal a {d} built verdict accepted =
      let (tp, alt, trial, found, policies, in_core, in_alt, in_trial) =
        build_risk_kernel-micro policy tiers symbols built in
      let (calm, gross, room, concentration, enabled) =
        approved_passed_gates k signal a verdict accepted in
      let is_core : tier_of k signal.symbol ≡ core = ground arith in
      let (gross_cap, budget_cap, share, symbol_cap, leverage) =
        approved-Within_caps order k signal a verdict accepted (micro_core tp)
          (ap (λ t. lookup t k.tier_policies) is_core ∙ in_core) in
      let limit : (micro_policy policy).max_open_positions ≤ 1 = ground arith in
      let few : a.open_positions < (micro_policy policy).max_open_positions =
        subst (λ (p : RiskPolicy F). a.open_positions < p.max_open_positions) policies room in
      (tp, found, is_core, omega (arith, limit, few), leverage, share)
