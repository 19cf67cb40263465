-- ===== src/Paper.antt =====
-- src/cats_py/services/paper_execution.py: the simulated account.
pub mod State
pub mod Prices
pub mod Fill
pub mod Market
pub mod Books
pub mod Positions
pub mod Memory
pub mod Outcome
pub mod Funding
pub mod Runs
pub mod Switch
