-- ===== src/Documents.antt =====
-- Documents of the TipTap editor: src/documents.
pub mod Node
pub mod Html
pub mod Marks
pub mod Renderer
pub mod Validator
mod Tests
