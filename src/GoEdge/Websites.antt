-- ===== src/GoEdge/Websites.antt =====
-- What ListEligibleWebsites lists.
pub mod Order
pub mod Listing
use goedge_ip_cert.Prelude.{List}
use goedge_ip_cert.Action.Returns.{Returns}
use goedge_ip_cert.GoEdge.Api.{Api}
