-- ===== src/User.antt =====
-- src/cats_py/services/user_state.py: how the venue's values are read, and what the events of the user
-- stream do to the account.
pub mod Values
pub mod Events
pub mod Keeps
pub mod Texts
pub mod Frame
