-- ===== src/Clicks.antt =====
-- modules/clicks: the processing of click events, and the statistics.
pub mod Events
pub mod Processor
pub mod Counting
pub mod DeadLetters
pub mod Buffers
pub mod Retries
pub mod Letters
pub mod Rounds
pub mod Drains
pub mod Service
pub mod History
pub mod Countries
pub mod Geolocation
pub mod Recording
pub mod Ranges
pub mod Totals
pub mod Slices
pub mod Dates
pub mod Agents
pub mod Daily
pub mod Aggregation
pub mod Anonymity
