-- ===== src/Events.antt =====
-- gestalt/events/bus.py
pub mod Memory
pub mod Redis
pub mod Interface
pub mod Permission
pub mod Listing
pub mod History
