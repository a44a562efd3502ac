-- ===== src/Vault.antt =====
-- internal/vault: who may read and write the secrets of which cluster.
pub mod Access
