-- ===== src/Error.antt =====
-- Go's error values: the sentinel errors of the packages, errors.New, fmt.Errorf with %w, and
-- errors.Join. Message texts are shortened and their formatted arguments left out.
use goedge_ip_cert.Prelude.{ℕ, String, Bool, false, ◌||◌, ◌==◌}

pub data Sentinel : Type 0 where
  state_not_found state_conflict : Sentinel
  schema_mismatch challenge_not_found ambiguous : Sentinel
  authentication unexpected_response server_not_found multiple_servers : Sentinel
  certificate_not_bound certificate_not_found multiple_certificates : Sentinel
  injected_crash reissue_required already_running : Sentinel

abbrev rank : Sentinel → ℕ
rank state_not_found = 0
rank state_conflict = 1
rank schema_mismatch = 2
rank challenge_not_found = 3
rank ambiguous = 4
rank authentication = 5
rank unexpected_response = 6
rank server_not_found = 7
rank multiple_servers = 8
rank certificate_not_bound = 9
rank certificate_not_found = 10
rank multiple_certificates = 11
rank injected_crash = 12
rank reissue_required = 13
rank already_running = 14

pub data Error : Type 0 where
  known : Sentinel → Error
  message : String → Error
  wrapped : String → Error → Error
  joined : Error → Error → Error

-- errors.Is
unfoldable pub is : Error → Sentinel → Bool
is (known t) s = rank t == rank s
is (message m) s = false
is (wrapped m e) s = is e s
is (joined a b) s = is a s || is b s
