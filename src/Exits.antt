-- ===== src/Exits.antt =====
-- src/cats_py/exits/evaluator.py: which open positions are to be closed, and why.
pub mod Evaluator
pub mod Reasons
