-- ===== src/Tests.antt =====
-- Runs of the models on concrete inputs.
mod Operations
mod Ports
mod Slug
mod Site
mod Servers
mod Validation
mod Auth
mod Configuration
mod Installer
mod Drafts
