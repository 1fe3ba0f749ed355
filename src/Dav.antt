-- ===== src/Dav.antt =====
-- internal/dav: paths, sync tokens and the backends between storage and the protocol.
pub mod Paths
pub mod Sync
pub mod Backend
pub mod Calendars
pub mod Books
