-- ===== src/Release.antt =====
-- `Release` (py-utils/src/utils/schema/release.py): versions of releases and of their components.
pub mod Versions
pub mod Installed
pub mod Compatible
pub mod Info
