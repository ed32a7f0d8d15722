-- ===== src/Chat.antt =====
-- A chat turn that is kept: the tables of backend-python/app/db/chat.py, the quota, the usage and
-- the turn of backend-python/app/services.
pub mod Store
pub mod Usage
pub mod Errors
pub mod Turn
pub mod Summary
pub mod Admission
pub mod Complete
pub mod ToolCalls
pub mod ToolLoop
pub mod ToolChat
pub mod Stream
pub mod Sessions
mod Samples
mod Examples
mod StreamExamples
mod ToolExamples
