-- ===== src/Lifecycle.antt =====
-- internal/lifecycle/runner.go: one run of the manager for one IPv4 address. The methods of Runner
-- stand in the order in which they call one another.
pub mod Model
pub mod Ensure
pub mod Operations
pub mod Recovery
pub mod Run
pub mod Keeps
pub mod Tables
pub mod Sent
pub mod Placing
pub mod Waiting
pub mod Dry
pub mod Journaled
pub mod Replacing
