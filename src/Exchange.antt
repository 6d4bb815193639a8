-- ===== src/Exchange.antt =====
-- Passing a role on to another Vault: mashery/transformers_pki.go and mashery/path_role_impexp.go.
pub mod Settings
pub mod Keys
pub mod Certificate
pub mod Export
pub mod Import
pub mod Terms
