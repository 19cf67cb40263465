-- ===== src/Dataset.antt =====
-- src/cats_py/services/paper_dataset.py: the journal of the paper account, joined into rows.
pub mod Rows
pub mod Groups
pub mod Totals
