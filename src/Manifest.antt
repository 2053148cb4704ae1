-- ===== src/Manifest.antt =====
-- `http_server_component` of src/services.rs, and the wadm manifest with the fields it reads.
pub mod Types
pub mod HttpServer
pub mod Addresses
pub mod Served
pub mod LastOf
pub mod Parts
pub mod Agreement
pub mod Serving
pub mod Labels
