-- ===== src/Proxy.antt =====
-- src/proxy.C: the protocol between a client and the helper process. Objects of the helper are
-- known to the client by their address, `0` for none.
pub mod Server
pub mod Client
pub mod Hostname
pub mod Lock
pub mod Commands
pub mod Remote
