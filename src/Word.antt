-- ===== src/Word.antt =====
-- The tools that turn the Markdown of a specification into a Word document, word-drafts/tools.
pub mod DocModel
pub mod Markdown
pub mod Ingest
