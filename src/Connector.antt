-- ===== src/Connector.antt =====
-- src/lib/goldstone/lib/connector and src/lib/goldstone/lib/server_connector: what every server and
-- every client reach sysrepo through.
pub mod Errors
pub mod Session
pub mod Server
