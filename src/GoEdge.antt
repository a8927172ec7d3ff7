-- ===== src/GoEdge.antt =====
-- internal/goedge: the client of the EdgeAPI REST interface.
pub mod Model
pub mod Api
pub mod Client
pub mod Certificates
pub mod Servers
pub mod Attempts
pub mod Discovery
pub mod Binding
pub mod Websites
