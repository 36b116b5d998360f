-- ===== src/Site.antt =====
-- apps/nginxproxy/internal/site: the agent that installs one virtual host for each server.
pub mod Names
pub mod Paths
pub mod Host
pub mod Store
