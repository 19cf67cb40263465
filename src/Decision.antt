-- ===== src/Decision.antt =====
-- From a feature vector to a trade decision: features, regime, strategies, scores and the engine.
pub mod Features
pub mod Strategies
pub mod Skips
pub mod Allocator
pub mod Engine
pub mod Choice
pub mod Best
pub mod Bounds
