-- ===== src/State.antt =====
-- internal/state: the SQLite store of operations, managed certificates and pending challenges.
pub mod Model
pub mod Tables
pub mod Moves
pub mod Outcomes
pub mod Activation
pub mod Store
pub mod Statements
pub mod Valid
pub mod Progress
pub mod Challenges
