-- ===== src/Orchestrator.antt =====
-- gestalt/orchestrator.py: the routing authority of the graph.
pub mod Values
pub mod Reasoning
pub mod Agents
pub mod Cohesion
pub mod Score
pub mod Distinct
pub mod Order
pub mod Setup
pub mod Steps
pub mod Routed
pub mod Routing
pub mod Finish
pub mod Success
pub mod Turn
pub mod Unsent
