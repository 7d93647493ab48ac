-- ===== src/Auth.antt =====
-- src/module/auth: sign-up, log-in and the tokens of the users.
pub mod Service
pub mod Accounts
pub mod Tests
