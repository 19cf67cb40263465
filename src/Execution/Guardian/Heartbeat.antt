-- ===== src/Execution/Guardian/Heartbeat.antt =====
-- `PositionGuardian`: the auto-cancel heartbeats. Each symbol's task runs the loop of
-- `maintain_auto_cancel`; one pass of that loop, up to its `sleep`, is a function of the venue's answer.
use Prim.Native.Nat.{◌+◌}
use nofx_cats_py.Prelude.{
  ℕ, Bool, true, false, ◌&&◌, Option, none, some, String, List, [], ◌∷◌, leb, string_eq, concat,
  or_else, if◌then◌else◌,
}
use nofx_cats_py.Result.{
  Result, ok, raise, Exception, key_error, value_error, runtime_error, zero_division, other_error,
}
use nofx_cats_py.Dict.{Dict, lookup, contains, insert, remove, keys}
use nofx_cats_py.Domain.Account.{AccountState, activate_kill_switch}

pub data Task : Type 0 where
  pending done : Task

pub record HeartbeatStatus : Type 0 where
  pub symbol : String
  pub active : Bool
  pub failure_count : ℕ
  pub last_error : Option String

pub record Guardian : Type 0 where
  pub heartbeat_seconds : ℕ
  pub countdown_ms : ℕ
  pub running : Bool
  pub heartbeat_tasks : Dict String Task
  pub heartbeat_failures : Dict String ℕ
  pub heartbeat_last_errors : Dict String String

-- `PositionGuardian(binance)`, with the default periods.
abbrev pub new_guardian : Guardian
new_guardian = record {
  heartbeat_seconds = 30;
  countdown_ms = 120000;
  running = true;
  heartbeat_tasks = [];
  heartbeat_failures = [];
  heartbeat_last_errors = [];
}

-- `str(exc)`
abbrev pub exception_text : Exception → String
exception_text (key_error s) = concat ("'" ∷ s ∷ "'" ∷ [])
exception_text (value_error s) = s
exception_text (runtime_error s) = s
exception_text zero_division = "division by zero"
exception_text (other_error s) = s

-- `_heartbeat_failures.get(symbol, 0)`
abbrev pub failures_of : Guardian → String → ℕ
failures_of g symbol = or_else (lookup symbol g.heartbeat_failures) 0

unfoldable pub note_success : Guardian → String → Guardian
note_success g symbol = record g {
  heartbeat_failures = insert symbol 0 g.heartbeat_failures;
  heartbeat_last_errors = remove symbol g.heartbeat_last_errors;
}

unfoldable pub note_failure : Guardian → String → Exception → Guardian
note_failure g symbol e = record g {
  heartbeat_failures = insert symbol (failures_of g symbol + 1) g.heartbeat_failures;
  heartbeat_last_errors = insert symbol (exception_text e) g.heartbeat_last_errors;
}

module _ {D : Type 0} where
  -- `if account_state is not None and failures >= 2: account_state.activate_kill_switch(…)`
  unfoldable pub escalate :
      Guardian → String → Exception → Option (AccountState D) → Option (AccountState D)
  escalate g symbol e none = none
  escalate g symbol e (some s) =
      if leb 2 (failures_of g symbol)
      then some (
          activate_kill_switch
            (concat
              ("countdownCancelAll heartbeat failed for " ∷ symbol ∷ ": " ∷ exception_text e ∷ []))
            s)
      else some s

  -- One pass of the loop of `maintain_auto_cancel`, with the answer to `countdown_cancel_all`.
  unfoldable pub beat :
      {A : Type 0}
      → String
      → Result A
      → Guardian × Option (AccountState D)
      → Guardian × Option (AccountState D)
  unfolding note_success note_failure escalate
  beat symbol answer (g, s) =
      if g.running && contains symbol g.heartbeat_tasks
      then elim answer [
        | ok _ ↦ (note_success g symbol, s)
        | raise e ↦ let g' = note_failure g symbol e in (g', escalate g' symbol e s)
      ]
      else (g, s)

  -- The passes of one task over the answers that it receives.
  unfoldable pub beats :
      {A : Type 0}
      → String
      → List (Result A)
      → Guardian × Option (AccountState D)
      → Guardian × Option (AccountState D)
  beats symbol [] st = st
  beats symbol (answer ∷ rest) st = beats symbol rest (beat symbol answer st)

-- `setdefault(symbol, 0)`
abbrev pub set_default : String → Dict String ℕ → Dict String ℕ
set_default symbol d = if contains symbol d then d else insert symbol 0 d

unfoldable pub start_auto_cancel : Guardian → String → Guardian × Bool
start_auto_cancel g symbol = if contains symbol g.heartbeat_tasks then (g, false) else (
  record g {
    heartbeat_failures = set_default symbol g.heartbeat_failures;
    heartbeat_tasks = insert symbol pending g.heartbeat_tasks;
  },
  true,
)

-- The task is cancelled and awaited; what is left of it is that it is gone.
unfoldable pub stop_auto_cancel : Guardian → String → Guardian × Bool
stop_auto_cancel g symbol =
    if contains symbol g.heartbeat_tasks
    then (record g { heartbeat_tasks = remove symbol g.heartbeat_tasks }, true)
    else (g, false)

unfoldable pub stop_each : List String → Guardian → Guardian
unfolding stop_auto_cancel
stop_each [] g = g
stop_each (symbol ∷ rest) g = stop_each rest ((stop_auto_cancel g symbol).0)

unfoldable pub stop_all_auto_cancel : Guardian → Guardian
unfolding stop_each
stop_all_auto_cancel g = stop_each (keys g.heartbeat_tasks) g

abbrev is_pending : Option Task → Bool
is_pending none = false
is_pending (some pending) = true
is_pending (some done) = false

unfoldable pub heartbeat_status : Guardian → String → HeartbeatStatus
heartbeat_status g symbol = record {
  symbol = symbol;
  active = is_pending (lookup symbol g.heartbeat_tasks);
  failure_count = failures_of g symbol;
  last_error = lookup symbol g.heartbeat_last_errors;
}

unfoldable pub stop : Guardian → Guardian
stop g = record g { running = false }
