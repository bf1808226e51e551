-- ===== src/Data.antt =====
-- ml/data: cleaning a corpus of sentence pairs and checking a split, file by file.
pub mod Normalize
pub mod Dedup
pub mod LengthFilter
pub mod CorpusIo
pub mod SplitIntegrity
pub mod Pipeline
pub mod GluedWords
mod Tests
