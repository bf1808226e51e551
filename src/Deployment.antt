-- ===== src/Deployment.antt =====
-- ml/deployment: serving a model behind the endpoint, packaging and deploying it, and promoting it.
pub mod S3Uri
pub mod Inference
pub mod Aws
pub mod PromoteModel
pub mod Package
pub mod Deploy
