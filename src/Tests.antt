-- ===== src/Tests.antt =====
-- The theorems at concrete inputs, and runs of the definitions.
mod Fixtures
mod Upstream
mod Served
mod Handled
mod Retrieved
mod Routing
mod Graphs
mod Lifecycle
mod Recall
mod Facets
mod Decay
mod Eviction
mod Archive
mod Detection
mod Forward
mod Found
mod Retry
mod Retriever
mod Usage
mod Respond
mod Adapters
