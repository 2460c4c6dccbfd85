-- ===== src/Push/Store.antt =====
-- The package push/store: installations in Firestore, one map of them for each user, and a document
-- for each target with the user who owns it.
pub mod Prune
pub mod Newest
pub mod Documents
pub mod Callbacks
pub mod Operations
pub mod Laws
pub mod Ownership
pub mod Done
pub mod Stamped
pub mod Removed
pub mod Refined
pub mod Active
