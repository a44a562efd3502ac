-- ===== src/App.antt =====
-- internal/app: what an account may do.
pub mod Access
