-- ===== src/Runtime/Modes.antt =====
-- src/cats_py/app/bootstrap.py: the runtime mode, and what it does to the risk constitution.
use nofx_cats_py.Prelude.{
  ℕ, Bool, true, false, not, ◌||◌, Option, none, some, String, List, [], ◌∷◌, ◌++◌, concat, leb,
  length, map, string_eq, ◌==◌, if◌then◌else◌,
}
use nofx_cats_py.Prelude.Int.{pos}
use nofx_cats_py.Result.{Result, ok, raise, key_error, value_error}
use nofx_cats_py.Raise.{◌>>=◌, ◌>>◌, raise_if}
use nofx_cats_py.Dict.{Dict, lookup, insert, insert_all}
use nofx_cats_py.Num.{Number, num, lit, min}
use nofx_cats_py.Domain.Enums.{SymbolTier, core, liquid_alt, experimental, tier_value, tier_eq}
use nofx_cats_py.Risk.Constitution.{RiskPolicy, SymbolTierPolicy}
use nofx_cats_py.Risk.Kernel.{RiskKernel}
use nofx_cats_py.Runtime.Settings.{
  RuntimeMode, shadow, paper, live_micro, live, mode_value, RuntimeSettings, AppConfig,
  SymbolConfig,
}

pub record RuntimeModeSummary (F : Type 0) : Type 0 where
  pub env : String
  pub mode : RuntimeMode
  pub decision_loop_enabled : Bool
  pub live_order_submission : Bool
  pub paper_execution : Bool
  pub allowed_symbol_tiers : List String
  pub configured_symbol_counts : Dict String ℕ
  pub core_loop_interval_seconds : ℕ
  pub max_runtime_open_positions : Option ℕ
  pub max_runtime_symbol_notional_pct : Option F

abbrev pub mode_beq : RuntimeMode → RuntimeMode → Bool
mode_beq shadow shadow = true
mode_beq paper paper = true
mode_beq live_micro live_micro = true
mode_beq live live = true
mode_beq _ _ = false

-- `", ".join(names)`
unfoldable pub comma_joined : List String → String
comma_joined [] = ""
comma_joined (name ∷ []) = name
comma_joined (name ∷ rest) = concat (name ∷ ", " ∷ comma_joined rest ∷ [])

-- `not value or value == "replace_me"`
abbrev pub is_missing : String → Bool
is_missing value = (value == "") || (value == "replace_me")

unfoldable pub missing_credentials : RuntimeSettings → List String
missing_credentials r =
    let name_if = λ (name value : String). if is_missing value then name ∷ [] else [] in
    name_if "NOFX_API_KEY" r.nofx_api_key
    ++ (name_if "BINANCE_API_KEY" r.binance_api_key
        ++ name_if "BINANCE_API_SECRET" r.binance_api_secret)

abbrev pub is_empty {ℓ} : {A : Type ℓ} → List A → Bool
is_empty [] = true
is_empty (x ∷ xs) = false

-- What `live_micro` asks of credentials and symbols (lines 211-228).
unfoldable pub check_live_micro : RuntimeSettings → SymbolConfig → Result (Unit {0})
unfolding missing_credentials comma_joined
check_live_micro r symbols = do
  raise_if (not (is_empty (missing_credentials r))) (
      value_error (
        concat (
          "live_micro requires configured credentials: "
          ∷ comma_joined (missing_credentials r)
          ∷ [])))
  raise_if (is_empty symbols.core)
      (value_error "live_micro requires at least one core symbol in configs/symbols.yaml")

abbrev pub all_tiers : List String
all_tiers = tier_value core ∷ tier_value liquid_alt ∷ tier_value experimental ∷ []

abbrev pub only_live_micro {ℓ} : {A : Type ℓ} → RuntimeMode → A → Option A
only_live_micro live_micro a = some a
only_live_micro _ a = none

-- The three branches on the mode: submission, paper execution and the allowed tiers.
abbrev pub mode_switches : RuntimeMode → Bool × Bool × List String
mode_switches shadow = (false, false, all_tiers)
mode_switches paper = (false, true, all_tiers)
mode_switches _ = (true, false, tier_value core ∷ [])

module _ {F : Type 0} ⦃n : Number F⦄ where
  unfoldable pub build_runtime_mode_summary :
      RuntimeSettings → AppConfig F → SymbolConfig → Result (RuntimeModeSummary F)
  unfolding check_live_micro
  build_runtime_mode_summary r app symbols =
      let (submission, paper_execution, tiers) = mode_switches r.mode in
      do
        raise_if (not (mode_beq r.mode app.mode)) (
            value_error (
              concat (
                "runtime mode mismatch: CATS_MODE must match configs/app.yaml mode ("
                ∷ mode_value r.mode
                ∷ " != "
                ∷ mode_value app.mode
                ∷ ")"
                ∷ [])))
        raise_if (mode_beq r.mode live) (
            value_error
              "live mode is disabled in this scaffold; use live_micro after completing safeguards")
        if mode_beq r.mode live_micro then check_live_micro r symbols else ok tt
        ok (record {
          env = r.env;
          mode = r.mode;
          decision_loop_enabled = true;
          live_order_submission = submission;
          paper_execution = paper_execution;
          allowed_symbol_tiers = tiers;
          configured_symbol_counts =
              ("core", length symbols.core)
              ∷ ("liquid_alt", length symbols.liquid_alt)
              ∷ ("experimental", length symbols.experimental)
              ∷ [];
          core_loop_interval_seconds = app.core_loop_interval_seconds;
          max_runtime_open_positions = only_live_micro r.mode 1;
          max_runtime_symbol_notional_pct = only_live_micro r.mode (num 5);
        })

  -- `tiers[tier]`, changed in place; a tier that is not there is a `KeyError`.
  unfoldable pub change_tier :
      SymbolTier
      → (SymbolTierPolicy F → SymbolTierPolicy F)
      → Dict SymbolTier (SymbolTierPolicy F)
      → Result (Dict SymbolTier (SymbolTierPolicy F))
  change_tier tier change tiers = elim (lookup tier tiers) [
    | none ↦ raise (key_error (tier_value tier))
    | some policy ↦ ok (insert tier (change policy) tiers)
  ]

  abbrev pub micro_policy : RiskPolicy F → RiskPolicy F
  micro_policy p = record p {
    max_open_positions = if leb p.max_open_positions 1 then p.max_open_positions else 1;
    gross_exposure_soft = min p.gross_exposure_soft (lit (pos 20) 2);
    gross_exposure_hard = min p.gross_exposure_hard (lit (pos 35) 2);
  }

  abbrev pub micro_core : SymbolTierPolicy F → SymbolTierPolicy F
  micro_core t = record t {
    max_symbol_notional_pct = min t.max_symbol_notional_pct (num 5);
    max_leverage = min t.max_leverage (num 2);
  }

  abbrev pub disabled : SymbolTierPolicy F → SymbolTierPolicy F
  disabled t = record t { enabled = false }

  unfoldable pub apply_runtime_risk_overrides :
      RiskPolicy F
      → Dict SymbolTier (SymbolTierPolicy F)
      → RuntimeMode
      → Result (RiskPolicy F × Dict SymbolTier (SymbolTierPolicy F))
  unfolding change_tier
  apply_runtime_risk_overrides policy tiers mode =
      if not (mode_beq mode live_micro) then ok (policy, tiers) else do
        with_core ← change_tier core micro_core tiers
        without_alt ← change_tier liquid_alt disabled with_core
        without_experimental ← change_tier experimental disabled without_alt
        ok (micro_policy policy, without_experimental)

-- `{symbol: value for symbol in symbols}`
abbrev pub assign {ℓ} : {A : Type ℓ} → A → List String → Dict String A
assign value symbols = map (λ symbol. (symbol, value)) symbols

-- A table of the configured symbols, a later group overriding an earlier one (lines 299-304).
unfoldable pub by_group {ℓ} :
    {A : Type ℓ} → (core_value alt_value experimental_value : A) → SymbolConfig → Dict String A
by_group core_value alt_value experimental_value symbols =
    insert_all (assign experimental_value symbols.experimental) (
      insert_all (assign alt_value symbols.liquid_alt)
        (insert_all (assign core_value symbols.core) []))

module _ {F : Type 0} ⦃n : Number F⦄ where
  -- The risk kernel that `bootstrap` builds from the policies and the symbols.
  unfoldable pub build_risk_kernel :
      RiskPolicy F
      → Dict SymbolTier (SymbolTierPolicy F)
      → RuntimeMode
      → SymbolConfig
      → Result (RiskKernel F)
  unfolding apply_runtime_risk_overrides by_group
  build_risk_kernel policy tiers mode symbols = do
    (runtime_policy, runtime_tiers) ← apply_runtime_risk_overrides policy tiers mode
    ok (record {
      policy = runtime_policy;
      tier_policies = runtime_tiers;
      symbol_tiers = by_group core liquid_alt experimental symbols;
      symbol_clusters =
          by_group (tier_value core) (tier_value liquid_alt) (tier_value experimental) symbols;
    })
