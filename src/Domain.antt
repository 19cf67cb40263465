-- ===== src/Domain.antt =====
-- src/cats_py/domain: the data that the services exchange.
pub mod Enums
pub mod Orders
pub mod Positions
pub mod Signals
pub mod Account
