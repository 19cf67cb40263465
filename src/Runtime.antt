-- ===== src/Runtime.antt =====
-- src/cats_py/config, src/cats_py/app/bootstrap.py and src/cats_py/services/decision_runtime.py: how
-- the parts are put together, and the cycle that runs them.
pub mod Settings
pub mod Modes
pub mod Symbols
pub mod Cycle
pub mod Cache
pub mod Fetch
pub mod Guards
pub mod Loop
pub mod Trades
pub mod Safety
pub mod Halt
pub mod Micro
