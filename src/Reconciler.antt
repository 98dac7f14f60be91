-- ===== src/Reconciler.antt =====
-- pkg/reconciler: the status and the owned secret that the reconcilers share.
pub mod Status
pub mod Secrets
