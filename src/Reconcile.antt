-- ===== src/Reconcile.antt =====
-- src/cats_py/services/reconciliation.py and recovery.py: the account rebuilt from the venue's answers.
pub mod Rows
pub mod Sorted
pub mod Parse
pub mod Mismatch
pub mod Reconciler
pub mod Agreement
pub mod Outcome
pub mod Exposure
