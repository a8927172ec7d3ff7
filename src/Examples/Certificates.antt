-- ===== src/Examples/Certificates.antt =====
-- The statements about internal/certificate and internal/rollback at a certificate for 8.8.8.8.
use goedge_ip_cert.Prelude.{◌≡◌, refl, false, [], ◌∷◌}
use goedge_ip_cert.Prelude.Int.{pos}
use goedge_ip_cert.Action.{ok}
use goedge_ip_cert.Ipv4.{parse_public}
use goedge_ip_cert.Certificate.{Verified, verify}
use goedge_ip_cert.Certificate.Soundness.{Accepted, verify-Accepted}
use goedge_ip_cert.World.{Snapshot}
use goedge_ip_cert.Rollback.{is_incomplete, save, load}
use goedge_ip_cert.Rollback.RoundTrip.{load-save}
use goedge_ip_cert.Examples.{crypto, calm, world}

abbrev verified : Verified
verified = record {
  cert_pem = 1 ∷ [];
  key_pem = 2 ∷ [];
  not_before = pos 10;
  not_after = pos 1000;
  dns_names = "8.8.8.8" ∷ [];
  common_names = "CA" ∷ "CA" ∷ [];
  fingerprint = "digest";
}

verifies : verify crypto (1 ∷ []) (2 ∷ []) "8.8.8.8" (pos 20) ≡ ok verified
unfolding verify parse_public
verifies = refl

verify-Accepted_example : Accepted crypto (1 ∷ []) (2 ∷ []) "8.8.8.8" (pos 20) verified
verify-Accepted_example =
    verify-Accepted crypto (1 ∷ []) (2 ∷ []) "8.8.8.8" (pos 20) verified verifies

abbrev snapshot : Snapshot
snapshot = record {
  version = pos 1;
  operation_id = "0123456789abcdef0123456789abcdef";
  ipv4 = "8.8.8.8";
  cert_id = pos 7;
  new_fingerprint = "new";
  old_fingerprint = "old";
  old = record {
    id = pos 7;
    user_id = pos 0;
    is_on = false;
    name = "edge";
    description = "";
    server_name = "";
    is_ca = false;
    cert_data = 1 ∷ [];
    key_data = 2 ∷ [];
    time_begin_at = pos 0;
    time_end_at = pos 0;
    dns_names = "8.8.8.8" ∷ [];
    common_names = [];
  };
}

snapshot_complete : is_incomplete snapshot ≡ false
unfolding is_incomplete
snapshot_complete = refl

load-save_example : (load calm snapshot.operation_id (save calm snapshot world).1).0 ≡ ok snapshot
load-save_example = load-save calm (λ x. refl) snapshot world snapshot_complete
