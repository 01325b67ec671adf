-- ===== src/Proxy.antt =====
-- src/spillover/proxy/app.py: what the proxy does to a request and to its response.
pub mod RuntimeEnv
pub mod Budget
pub mod Forward
pub mod Retry
pub mod Respond
pub mod Rescue
pub mod Fallback
pub mod Retrieve
pub mod Placement
pub mod Prepare
pub mod Unary
pub mod Streamed
pub mod Handler
pub mod Middleware
pub mod App
