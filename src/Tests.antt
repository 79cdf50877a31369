-- ===== src/Tests.antt =====
-- The theorems at concrete inputs, over small stores that meet the assumptions.
pub mod Stores
pub mod Rows
pub mod Signatures
mod Codes
mod Shop
mod Links
mod Metrics
mod Places
mod People
mod Limits
mod Requests
mod Topics
mod Counters
mod Mails
mod Histories
mod Statistics
mod Redirects
mod Accounts
mod Servers
mod Gates
mod Variables
