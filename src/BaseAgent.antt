-- ===== src/BaseAgent.antt =====
-- gestalt/base_agent.py: the lifecycle that every agent shares. An agent is its name, its prompt and
-- its `produce_artifacts`; the methods take it as an argument.
pub mod Artifacts
pub mod Context
pub mod Outputs
pub mod Turn
pub mod Services
pub mod Make
pub mod Behaves
pub mod ServicesRun
pub mod Carried
pub mod Clock
pub mod Failure
pub mod Update
pub mod Run
