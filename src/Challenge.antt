-- ===== src/Challenge.antt =====
-- internal/challenge: the HTTP-01 challenge rows, their journal and their clean-up.
pub mod Model
pub mod Provider
pub mod MySql
