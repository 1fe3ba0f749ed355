-- ===== src/Tests.antt =====
-- Runs of the models on concrete inputs, and the theorems at concrete inputs.
pub mod Content
pub mod Cards
pub mod Sync
pub mod Login
pub mod Sessions
pub mod Calendars
pub mod Books
pub mod Admin
pub mod Contact
pub mod Ical
pub mod Recurrence
pub mod Queries
pub mod Integrity
pub mod Timezones
pub mod Events
pub mod Admission
pub mod Passwords
