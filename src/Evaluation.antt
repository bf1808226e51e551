-- ===== src/Evaluation.antt =====
-- ml/evaluation: the metrics of a checkpoint, its model card and the report of a run.
pub mod Metrics
pub mod ModelCard
pub mod Run
pub mod Checkpoint
mod Tests
