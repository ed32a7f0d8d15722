-- ===== src/Tools.antt =====
-- The tool platform, backend-python/app/ai/tools: the registry, the validator of arguments against
-- a JSON schema, the authorizer, and the executor that puts them together.
pub mod Schema
pub mod Validator
pub mod Registry
pub mod Executor
pub mod Echo
pub mod WebSearch
mod Examples
