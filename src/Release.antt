-- ===== src/Release.antt =====
-- release/tools: which files a release moves, and where they go.
pub mod Sorting
pub mod Manifest
pub mod Routes
pub mod Spec
