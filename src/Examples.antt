-- ===== src/Examples.antt =====
-- Runs of the model on concrete data, and each theorem at an input that meets its conditions.
mod Database
pub mod Outbox
mod Overlays
mod Pulls
mod Uploads
mod Members
mod QueryCache
mod WebHooks
mod SyncProviders
mod Sessions
mod WebApps
mod Sheets
mod Imports
mod Calendars
pub mod Data
