-- ===== src/Urls.antt =====
-- modules/urls: the URL service, its controllers and the cleanup of expired URLs.
pub mod Types
pub mod World
pub mod Values
pub mod Records
pub mod Service
pub mod Edit
pub mod Creation
pub mod Lookup
pub mod Controller
pub mod Gateway
pub mod Gates
pub mod Cleanup
pub mod Access
pub mod Replacement
pub mod Expiry
pub mod Coherence
pub mod Directory
pub mod Effects
pub mod Listing
pub mod Renaming
pub mod Updates
pub mod History
