-- ===== src/Protocol.antt =====
-- gestalt/protocol.py
pub mod Enums
pub mod Models
pub mod Reports
pub mod Validation
pub mod Constraints
