-- ===== src/Agents.antt =====
-- gestalt/agents: the six specialists. Each acts through the tools and the language model.
pub mod Prompts
pub mod Telemetry
pub mod Monitor
pub mod Analyzer
pub mod PlannerExecutor
pub mod Optimizer
pub mod Knowledge
pub mod AuditRules
pub mod SecurityAudit
pub mod Plain
pub mod Auditing
pub mod Monitoring
pub mod Specialists
pub mod Findings
pub mod Report
pub mod Verdict
