-- ===== src/Agent.antt =====
-- The agent runtime, backend-python/app/ai/agent.
pub mod Models
pub mod Exn
pub mod State
pub mod Scratchpad
pub mod Publisher
pub mod World
pub mod Env
pub mod Retry
pub mod Results
pub mod Resolver
pub mod Runner
pub mod Answer
pub mod Planner
pub mod Reflection
pub mod Executor
pub mod Default
mod Samples
mod Examples
