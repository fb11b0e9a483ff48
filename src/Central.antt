-- ===== src/Central.antt =====
-- cmd/centralserver: the server that reassembles the connections that clients split over tunnels.
mod Tests
pub mod State
pub mod Handlers
pub mod Upstream
pub mod Cleanup
pub mod Reader
