-- ===== src/Tests.antt =====
-- Concrete inputs, in fixed-point numbers, at which the theorems are applied.
mod Samples
mod Risk
mod Execution
mod Orders
mod Decision
mod Paper
mod Runtime
mod User
mod Reconcile
mod Fetch
mod Dataset
