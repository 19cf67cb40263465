-- ===== src/Nofx.antt =====
-- src/cats_py/connectors/nofx/normalizers.py and services/universe.py: the data source's answers, read into
-- a feature vector and a list of symbols.
pub mod Values
pub mod Maps
pub mod Keys
pub mod Snapshot
pub mod Universe
