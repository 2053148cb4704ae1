-- ===== src/Controller.antt =====
-- src/controller.rs: what a WasmCloudHostConfig becomes in the cluster.
pub mod Labels
pub mod Types
pub mod Observability
pub mod Env
pub mod Certificates
pub mod Pod
pub mod Apply
pub mod Reconcile
pub mod Registry
pub mod Mounting
pub mod Volumes
pub mod Panics
pub mod Template
pub mod Replicas
pub mod Order
pub mod Frame
pub mod Atomic
pub mod Watched
pub mod Cleanup
