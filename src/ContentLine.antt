-- ===== src/ContentLine.antt =====
-- Package contentline (internal/contentline): content lines of vCard and iCalendar objects.
pub mod Lines
pub mod Fold
pub mod Escape
pub mod Document
pub mod Edit
