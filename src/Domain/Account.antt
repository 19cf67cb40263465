-- ===== src/Domain/Account.antt =====
-- src/cats_py/domain/models.py: `AccountState`, the mutable picture of the account. A method returns
-- the new record; the clock's reading enters as an argument.
mod State
mod Totals
unfoldable pub use State.*
unfoldable pub use Totals.*
