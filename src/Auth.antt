-- ===== src/Auth.antt =====
-- modules/users and modules/auth: the accounts, and what the tokens open.
pub mod World
pub mod Users
pub mod Tokens
pub mod Service
pub mod Guards
pub mod Admission
pub mod Writes
pub mod Steps
pub mod Methods
pub mod Joins
pub mod Controller
pub mod Served
pub mod History
pub mod Sessions
pub mod Accounts
