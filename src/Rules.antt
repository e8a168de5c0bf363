-- ===== src/Rules.antt =====
-- internal/rules: user-defined rules that decide before the validators do.
pub mod Types
pub mod Pattern
pub mod Matcher
pub mod Registry
pub mod Evaluator
pub mod Engine
pub mod Adapter
pub mod Tests
