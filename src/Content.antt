-- ===== src/Content.antt =====
-- The content component: items, tags, documents and uploads.
pub mod Data
pub mod Store
pub mod Memory
pub mod Upload
pub mod Duplicates
mod Tests
