-- ===== src/Watch.antt =====
-- internal/watch: the engine that checks the watches of a chat and handles their incidents.
pub mod Numerics
pub mod Spec
pub mod World
pub mod Repository
pub mod Env
pub mod Evaluate
pub mod Actions
pub mod Requests
pub mod Engine
pub mod Handle
pub mod Steps
mod Examples
