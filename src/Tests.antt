-- ===== src/Tests.antt =====
-- Samples, runs of the definitions on them, and the theorems at them.
mod Samples
mod ServiceRuns
mod ControllerRuns
mod ManifestRuns
mod HeaderRuns
mod ApplicationRuns
mod OperatorRuns
mod StartupRuns
