-- ===== src/Exceptions.antt =====
-- internal/exceptions and pkg/config/exceptions.go: the exception workflow.
pub mod Config
pub mod Types
pub mod RateLimit
pub mod Policy
pub mod Token
pub mod Engine
pub mod Handler
pub mod Tests
