-- ===== src/CounterCompact.antt =====
-- src/spillover/counter_compact: the proxy's defence against compaction by the client.
pub mod Detection
pub mod EnvVars
pub mod Usage
pub mod Intercept
pub mod Events
