-- ===== src/Kube.antt =====
-- The Kubernetes objects that the operator reads and writes, and its calls of other systems.
pub mod Objects
pub mod Pods
pub mod World
