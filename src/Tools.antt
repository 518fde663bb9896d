-- ===== src/Tools.antt =====
-- gestalt/tools: the tools and their registry.
pub mod Base
pub mod Outputs
pub mod Fields
pub mod Outside
pub mod Implementations
pub mod Registry
pub mod Everywhere
pub mod Access
pub mod Permission
pub mod Effects
