-- ===== src/Examples.antt =====
-- Concrete inputs, and the theorems at those inputs.
mod Doubles
mod Data
mod Stats
mod Events
mod Memories
mod Agents
mod Cycle
mod Tools
mod Program
mod Service
mod Settings
