-- ===== src/Security.antt =====
-- internal/security: how texts are cleaned before they are shown or stored, and where secrets are read.
pub mod Redact
pub mod Secret
