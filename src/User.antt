-- ===== src/User.antt =====
-- src/module/user: the schema and the service.
pub mod Model
pub mod Service
