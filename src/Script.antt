-- ===== src/Script.antt =====
-- The rule language of crates/aether-script.
pub mod Ast
pub mod Token
pub mod Types
pub mod Parser
pub mod Codegen
pub mod Runtime
pub mod Reload
pub mod Engine
mod Samples
mod Tests
