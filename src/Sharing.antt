-- ===== src/Sharing.antt =====
-- pkg/sharing: exported secrets are cached and offered to the namespaces that may import them.
pub mod Floats
pub mod Exports
pub mod Env
pub mod Wildcards
pub mod DockerConfig
pub mod ExportReconciler
pub mod ImportReconciler
pub mod SecretReconciler
pub mod Watches
pub mod Shared
