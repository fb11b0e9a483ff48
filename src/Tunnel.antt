-- ===== src/Tunnel.antt =====
-- internal/tunnel: the protocol, the order of frames, the connections and the splitter.
pub mod Protocol
pub mod Reorder
pub mod Pool
pub mod Splitter
mod Tests
