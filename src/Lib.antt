-- ===== src/Lib.antt =====
-- The Spanish-Kaqchikel translator, as far as its own logic goes: the HTTP API with its translation
-- jobs, the cleaning and checking of the corpus, the extension of the tokenizer and of its
-- vocabulary, the averaging of checkpoints, the generation of translations, the evaluation of a
-- checkpoint, and the serving, packaging, deployment and promotion of a model.
--
-- The parts and how they interact. A submission stores a job in a DynamoDB table and invokes the
-- worker, which calls the SageMaker endpoint and resolves the job; a failure destination resolves
-- jobs whose worker died; polls read the table. The endpoint parses the body that the API writes and
-- answers with the body that the API reads. The corpus pipeline reads, normalises, deduplicates,
-- filters and writes sentence pairs, and checks a split for leaks. Training tags each source text
-- with its direction, adds tokens to the vocabulary and rows to the embedding matrix, patches how
-- the tokenizer decodes the tokens it added, and averages the last checkpoints. A job is submitted
-- with its configuration as hyperparameters, from which its model is registered. An evaluation
-- reconstructs from the corpus which tokens training added, patches the saved tokenizer in the same
-- way, generates the translations batch by batch, and computes the metrics of the files of
-- hypotheses and references; a report and a model card are written from them. The deployment parses
-- that card, packages the model with the code that serves it, uploads and registers it; a registered
-- model is promoted to the account that serves it.
--
-- Base: lists over the native numbers, Booleans, equality tests, membership, Python's dict as an
--   association list in insertion order.
-- Text: Python's str as a list of code points, with strip, split, partition, splitlines and
--   universal newlines; str.isspace and the line breaks are those of the Python documentation.
-- Api.Result: exceptions as values; a method is a function from the world to a result and the world,
--   and what was written before a raise stays written.
-- Api.Models, Config, Validation, Observability: apps/api/app/models.py, config.py, validation.py,
--   observability.py.
-- Api.Json, Dynamo, World: JSON values, items and conditional updates of the table, and the services
--   (AWS, uuid, json) as parameters; IsHealthy of Api.Jobs.Guard says what is relied on in
--   writes, IsFresh that a read is up to date.
-- Api.Jobs: apps/api/app/jobs.py. Api.Translation: translation.py. Api.Worker: worker_handler.py.
--   Api.Failure: failure_handler.py. Api.Main: main.py.
-- Api.Lifecycle: any sequence of the handlers on one table, as a relation on worlds.
-- Api.Fake: a table in memory, at which the theorems' hypotheses hold.
-- Data.Normalize, Dedup, LengthFilter, CorpusIo, SplitIntegrity, Pipeline: the files of ml/data of
--   those names. NFC, the quotient of two lengths and the comparison of it are parameters.
-- Data.GluedWords: of ml/data/glued_word_signal.py the search for words glued to a prefix; str.lower
--   and the pattern of a word are parameters.
-- Training.Direction: ml/training/direction.py. Training.Vocab, Pieces, Embedding:
--   ml/training/vocab_extension.py. Training.Gap: vocab_gap.py. Training.Subwords: subword_vocab.py.
--   SentencePiece and NumPy's mean and noise are parameters.
-- Training.Averaging: ml/training/checkpoint_averaging.py, with S3 in memory and the arithmetic of
--   tensors as parameters.
-- Training.Tokenizer: ml/training/tokenizer_extension.py; the base tokenizer and its own decoding
--   are parameters, the patches are functions on what they patch.
-- Training.Extension, Dataset, Generation: of ml/training/train.py the texts and tokens of an
--   extension, the sizes of a dataset, and generate_translations; the model that generates is a
--   parameter.
-- Evaluation.Metrics, ModelCard, Run: ml/evaluation/metrics.py, model_card.py, run.py. sacrebleu and
--   the formatting of its scores are parameters.
-- Evaluation.Checkpoint: ml/evaluation/evaluate_checkpoint.py, as far as it reconstructs the texts
--   and the vocabulary of a training run, patches the tokenizer and diagnoses a mismatch.
-- Deployment.Inference: ml/deployment/inference.py; tokenizer, model and JSON are parameters.
-- Deployment.S3Uri: the parsing and writing of S3 URIs. Deployment.Package:
--   ml/deployment/package_model.py on the contents of an archive; where tarfile puts a member is a
--   parameter.
-- Deployment.Aws: the AWS calls of a promotion, a deployment and a submission, and AWS as a parameter.
-- Deployment.PromoteModel: ml/deployment/promote_model.py as a trace of those calls, with
--   resolve_stack_outputs of ml/training/submit_job.py and ensure_model_package_group of
--   ml/training/model_registry.py.
-- Training.Submission: ml/training/submit_job.py, the job's configuration, submission and
--   registration, with ml/training/model_registry.py, as such a trace; the SageMaker SDK is a
--   parameter.
-- Deployment.Deploy: ml/deployment/deploy.py as such a trace.
--
-- Bounds and fuel. Numbers are natural numbers; no machine integer occurs in the program. The greedy
-- decomposition of a token runs on fuel, its length; each piece that is found has at least one
-- character, so the fuel is enough. The batches of a generation run on fuel, the number of indices;
-- each batch takes at least one of them. All other loops are structural recursion.
--
-- Not modelled: FastAPI's routing, argument parsers, printed text, loading of weights, the
-- fine-tuning itself, run_training_job and the evaluation of a checkpoint as wholes, the length
-- bias, the other corpus diagnostics, the web application and the infrastructure. The table's own deletion
-- of expired items is not a step of a job's life; what follows from it is stated of a table that no
-- longer holds the job.
pub mod Base
pub mod Text
pub mod Api
pub mod Data
pub mod Training
pub mod Evaluation
pub mod Deployment
