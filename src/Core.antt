-- ===== src/Core.antt =====
-- internal/core: Convex values, function paths and function results.
pub mod Error
pub mod Text
pub mod Base64
pub mod Wire
pub mod Value
pub mod GoValue
pub mod FunctionResult
pub mod Identifier
pub mod FunctionPath
