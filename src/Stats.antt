-- ===== src/Stats.antt =====
-- gestalt/stats.py
pub mod Levels
pub mod Model
pub mod Policy
pub mod Snapshot
pub mod Summary
pub mod Bounds
pub mod Optimizer
pub mod Tiers
