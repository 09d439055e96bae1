-- ===== src/Proxy.antt =====
-- internal/proxy: the server side, which forwards public requests over the tunnels.
pub mod Selector
pub mod Tunnel
pub mod Registry
pub mod Serve
pub mod Forward
pub mod Pump
pub mod Relay
pub mod Adapter
