-- ===== src/Routes.antt =====
-- backend/internal/routes: the routing store.
pub mod Samples
pub mod Errors
pub mod Std
pub mod Validate
pub mod Normalize
pub mod Listeners
pub mod Pools
pub mod Rules
pub mod Compile
pub mod Store
pub mod Commit
pub mod Operations
pub mod Runtime
pub mod Compat
pub mod Load
pub mod Invariant
pub mod Calls
mod Tests
