-- ===== src/Tools/Implementations.antt =====
-- gestalt/tools/implementations: the eight tools. They act on the services, and what they send to the
-- outside is kept in `outside`.
pub mod Metrics
pub mod Memory
pub mod Http
pub mod Sandbox
pub mod Kubernetes
pub mod Catalog
pub mod Effects
pub mod Confinement
pub mod Typing
