-- ===== src/Application.antt =====
-- src/resources/application.rs: the HTTP handlers of applications.
pub mod Types
pub mod Patch
pub mod Listing
pub mod Connection
pub mod Handlers
pub mod Frame
pub mod Tables
