-- ===== src/Gnmi.antt =====
-- The gNMI server: src/north/gnmi/goldstone/north/gnmi.
pub mod Paths
pub mod Repository
pub mod Requests
pub mod Server
pub mod Get
pub mod Subscribe
pub mod Sysrepo
