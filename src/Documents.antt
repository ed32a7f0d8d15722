-- ===== src/Documents.antt =====
-- Documents on their way into the retrieval, and back: the chunker of
-- backend-python/app/ai/documents/chunkers, and the context builder of backend-python/app/ai/rag.
pub mod Segments
pub mod Pages
pub mod Chunker
pub mod Context
pub mod Prompt
pub mod Ask
mod Examples
