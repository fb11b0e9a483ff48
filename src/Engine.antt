-- ===== src/Engine.antt =====
-- internal/engine: the instances of the tunnel client.
mod Tests
pub mod Instance
pub mod Manager
