-- ===== src/Service.antt =====
-- internal/service: the rules of accounts, sessions and roles, over the statements of internal/dao
-- and internal/repository.
pub mod Promise
pub mod Auth
pub mod User
pub mod Access
pub mod Rbac
pub mod Bootstrap
pub mod Endings
