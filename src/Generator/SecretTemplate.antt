-- ===== src/Generator/SecretTemplate.antt =====
-- SecretTemplateReconciler of pkg/generator/secret_template_reconciler.go: its reconcile. Reading the
-- inputs and evaluating the template are child modules.
pub mod Inputs
pub mod Evaluation
pub mod Reconciler
pub mod Reading
pub mod Tracking
pub mod Evaluated
pub mod Values
pub mod Delegated
pub mod Accounts
