-- ===== src/Text.antt =====
-- src/app/domain/text.py: normalisation, quotes, chunks and pages, each in a child, over texts as
-- lists of code points. What Python's `str` knows of Unicode is an argument.
pub mod Unicode
pub mod Normalize
pub mod Quote
pub mod Chunk
pub mod Page
