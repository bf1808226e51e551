-- ===== src/Training.antt =====
-- ml/training: directions, the extension of the tokenizer, averaged checkpoints, and generation.
pub mod Direction
pub mod Vocab
pub mod Pieces
pub mod Gap
pub mod Embedding
pub mod Subwords
pub mod Averaging
pub mod Tokenizer
pub mod Extension
pub mod Dataset
pub mod Generation
pub mod Submission
mod Tests
