-- ===== src/Examples/Edge.antt =====
-- The statements about internal/goedge and internal/security at an EdgeAPI that has one website.
use goedge_ip_cert.Prelude.{
  ◌≡◌, refl, ◌↔◌, ◌≤◌, ◌+◌, arith, true, Option, none, some, List, [], ◌∷◌, length, take, drop,
}
use goedge_ip_cert.Prelude.Int.{pos}
use goedge_ip_cert.Action.{ok, ◌>>=◌}
use goedge_ip_cert.Security.Redact.{Patterns, safe_api_message, characters}
use goedge_ip_cert.Security.Redact.Visible.{is_visible, safe_api_message_lem}
use goedge_ip_cert.GoEdge.Model.{CertificateConfig, SslPolicy, Website}
use goedge_ip_cert.GoEdge.Api.{
  ApiRequest, list_servers, list_certs, number_code, read, present, ServerResponse, Api,
}
use goedge_ip_cert.GoEdge.Client.{
  Session, call, call_attempt, access_token, new_token, accept_token, store_token, time_now,
  outside_step, set_token, get_session, post, exchange, read_body, decode_envelope, api_code,
  decode_data, lacks_credentials, to_unix,
}
use goedge_ip_cert.GoEdge.Servers.{discover_server, page_size, exact_targets, the_target}
use goedge_ip_cert.GoEdge.Certificates.{
  policy, verify_certificate_bound, find_certificate_by_marker, the_match,
}
use goedge_ip_cert.GoEdge.Attempts.{posts-discover_server}
use goedge_ip_cert.GoEdge.Discovery.{Serves, choose, discover_server-choose}
use goedge_ip_cert.GoEdge.Binding.{
  Only, Bound, verify_certificate_bound-Bound, find_certificate_by_marker_lem,
}
use goedge_ip_cert.Examples.{config}

-- Patterns that match nothing.
abbrev patterns : Patterns
patterns = record {
  drop_ansi = λ s. s;
  redact_private_keys = λ s. s;
  replace_headers = λ f s. s;
  redact_dsn = λ s. s;
}

safe_api_message_lem_example :
    (is_visible (safe_api_message patterns ("hidden" ∷ []) "it is hidden\nhere") ≡ true)
    × (characters (safe_api_message patterns ("hidden" ∷ []) "it is hidden\nhere") ≤ 1027)
safe_api_message_lem_example = safe_api_message_lem patterns ("hidden" ∷ []) "it is hidden\nhere"

abbrev site : ServerResponse
site = record {
  id = pos 1;
  user_id = pos 2;
  name = "site";
  names = some (record { name = "8.8.8.8"; type = "full"; sub_names = [] } ∷ []);
  https = present (record {
    is_on = true;
    ssl_policy_ref = some (record { is_on = true; ssl_policy_id = pos 3 });
  });
  node_cluster = some (record { id = pos 4; name = "cluster" });
}

abbrev bound_policy : SslPolicy
bound_policy = record {
  id = pos 3;
  is_on = true;
  cert_refs = record { is_on = true; cert_id = pos 7 } ∷ [];
}

-- The raw JSON of an answer is the request itself, and the decoders know what to answer.
abbrev servers_of : ApiRequest → Option (List ServerResponse)
servers_of (list_servers k offset) = some (take page_size (drop offset (site ∷ [])))
servers_of q = none

abbrev api : Api (Unit {0}) ApiRequest
api = record {
  now = λ x. (pos 0, x);
  credentials =
      λ x. (ok (record { identity_type = "admin"; access_key_id = "id"; access_key = "key" }), x);
  new_request = λ q. none;
  send = λ q token x. (
    ok (record {
      status = 200;
      body =
          read 1 (some (record { code = number_code (pos 200); message = []; payload = some q }));
    }),
    x,
  );
  decode = record {
    token = λ q. some (record { token = "token"; expires_at = pos 100 });
    count = λ q. some (pos 1);
    servers = servers_of;
    nodes = λ q. some (record { is_installed = true; is_on = true; is_up = true } ∷ []);
    ssl_cert_id = λ q. some (pos 7);
    empty = λ q. some tt;
    ssl_cert = λ q. some (present config);
    ssl_certs = λ q. some (some (config ∷ []));
    ssl_policy = λ q. some (present bound_policy);
  };
}

abbrev session : Session (Unit {0})
session = record { token = ""; expires_at = pos 0; posts = []; outside = tt }

serves : Serves api (λ q. q)
unfolding lacks_credentials to_unix
serves = record {
  credentials = record { identity_type = "admin"; access_key_id = "id"; access_key = "key" };
  given = λ x. refl;
  complete = refl;
  token = record { token = "token"; expires_at = pos 100 };
  issued = refl;
  nonempty = refl;
  ahead = λ x. refl;
  built = λ q. refl;
  sent = λ q t x. refl;
}

posts-discover_server_example :
    length (discover_server api "8.8.8.8" session).1.posts ≤ 404 + length session.posts
posts-discover_server_example = posts-discover_server api "8.8.8.8" session

one : 1 ≤ 10_000
one = omega arith

discover_server-choose_example :
    (discover_server api "8.8.8.8" session).0 ≡ choose "8.8.8.8" (site ∷ [])
discover_server-choose_example =
    discover_server-choose api (λ q. q) "8.8.8.8" (site ∷ []) session serves refl (λ offset. refl)
      one

-- It is found.
chosen_site :
    choose "8.8.8.8" (site ∷ [])
    ≡ ok (record { id = pos 1; user_id = pos 2; policy_id = pos 3; https_is_on = true })
unfolding exact_targets the_target
chosen_site = refl

verify_certificate_bound-Bound_example :
    ((verify_certificate_bound api (pos 3) (pos 7) session).0 ≡ ok tt)
    ↔ ((found : SslPolicy) × ((policy api (pos 3) session).0 ≡ ok found) × Bound (pos 7) found)
verify_certificate_bound-Bound_example = verify_certificate_bound-Bound api (pos 3) (pos 7) session

marked : (find_certificate_by_marker api "edge" (pos 2) session).0 ≡ ok config
unfolding find_certificate_by_marker call call_attempt access_token new_token accept_token
    store_token time_now outside_step set_token get_session post exchange read_body decode_envelope
    api_code decode_data lacks_credentials to_unix ◌>>=◌ the_match
marked = refl

find_certificate_by_marker_lem_example :
    (certs : List CertificateConfig) × ((call api
        (list_certs "edge" (pos 2))
        api.decode.ssl_certs
        session).0
      ≡ ok (some certs))
    × Only "edge" certs config
find_certificate_by_marker_lem_example =
    find_certificate_by_marker_lem api "edge" (pos 2) session config marked

abbrev website : Website
website = record {
  server_id = pos 1;
  user_id = pos 2;
  name = "site";
  ipv4 = "8.8.8.8";
  policy_id = pos 3;
  cluster_id = pos 4;
  cluster = "cluster";
  node_online = true;
}
