-- ===== src/Security.antt =====
-- Access control (nanograph-core/src/object/security): permissions and the scopes of grants.
pub mod Permission
pub mod Scope
pub mod Principal
mod Tests
