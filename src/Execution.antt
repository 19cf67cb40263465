-- ===== src/Execution.antt =====
-- src/cats_py/execution: from an approved request to an order at the venue, and the protection of what
-- is open.
pub mod Validator
pub mod Router
pub mod Guardian
pub mod Protection
pub mod Service
pub mod Safety
pub mod Checks
pub mod Payload
