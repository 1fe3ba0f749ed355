-- ===== src/Admin.antt =====
-- internal/admin: who may use the administration interface, and what its handlers do to the database. Pages
-- are left out.
pub mod Slugs
pub mod Accounts
pub mod Objects
pub mod Events
pub mod Contacts
pub mod Login
pub mod Collections
