-- ===== src/Risk.antt =====
-- src/cats_py/risk: the policy and the kernel that approves or refuses a signal.
pub mod Constitution
pub mod Kernel
pub mod Gates
pub mod Bounds
