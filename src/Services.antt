-- ===== src/Services.antt =====
-- src/services.rs: the watchers of lattices, their commands, and the services in the cluster.
pub mod Types
pub mod Watch
pub mod Watching
pub mod Validity
pub mod Events
pub mod EventLaws
pub mod Publishing
pub mod Reach
pub mod Cluster
pub mod Calls
pub mod Deletion
pub mod Commands
pub mod Endpoints
pub mod Addresses
pub mod Selection
pub mod Refinement
pub mod Ending
pub mod Receiver
pub mod Frame
