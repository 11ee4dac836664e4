-- ===== src/Vector.antt =====
-- The vectors of the text snippets, of backend/app/routes/vector.py: how a text is embedded, and the
-- loop that keeps the embeddings current.
pub mod Embedding
mod Dimensions
pub mod Live
mod Remembered
mod Current
mod Marked
mod CatchUp
mod Complete
mod Held
mod Overwritten
mod Tests
