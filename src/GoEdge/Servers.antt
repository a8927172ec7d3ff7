-- ===== src/GoEdge/Servers.antt =====
-- internal/goedge/server.go: finding the server of an address, and listing the websites that can be
-- managed. The loops over pages count their rounds down from the number of pages of the count.
use goedge_ip_cert.Prelude.{
  ℕ, zero, suc, ◌+◌, ◌/◌, String, Bool, false, not, ◌&&◌, ◌||◌, Option, none, some, List, [], ◌∷◌,
  ◌++◌, length, ltb, ◌==◌, ◌=s=◌, if◌then◌else◌,
}
use goedge_ip_cert.Prelude.Int.{ℤ, pos, pos_part, ltb_ℤ, not_positive}
use goedge_ip_cert.Error.{known, message, server_not_found, multiple_servers}
use goedge_ip_cert.Action.{
  Result, ok, err, Action, pass, fail, on, on_option, refuse_if, ◌>>=◌, ◌>>◌,
}
use goedge_ip_cert.Ipv4.{codes, parse_public, print, same_text}
use goedge_ip_cert.Text.{text_before}
use goedge_ip_cert.Security.Redact.{Patterns, redact}
use goedge_ip_cert.GoEdge.Model.{ServerName, SslPolicyRef, ServerTarget, Website}
use goedge_ip_cert.GoEdge.Api.{
  count_servers, list_servers, list_nodes, Field, missing, invalid, present, HttpsConfig,
  NodeCluster, ServerResponse, Node, Api,
}
use goedge_ip_cert.GoEdge.Client.{Session, unexpected, call}
use goedge_ip_cert.GoEdge.Certificates.{policy}

abbrev pub page_size : ℕ
page_size = 100

abbrev pub max_server_candidates : ℤ
max_server_candidates = pos 10_000

-- The rounds of `for offset := 0; offset < count; offset += pageSize`
abbrev pub pages_of : ℤ → ℕ
pages_of count = (pos_part count + 99) / 100

unfoldable pub has_sub_name : String → List String → Bool
has_sub_name ip [] = false
has_sub_name ip (sub_name ∷ sub_names) = sub_name =s= ip || has_sub_name ip sub_names

unfoldable pub contains_exact_name : List ServerName → String → Bool
unfolding has_sub_name
contains_exact_name [] ip = false
contains_exact_name (name ∷ names) ip =
    name.name =s= ip && (name.type =s= "" || name.type =s= "full")
    || has_sub_name ip name.sub_names
    || contains_exact_name names ip

abbrev policy_of : Option SslPolicyRef → ℤ
policy_of none = pos 0
policy_of (some ref) = if ref.is_on then ref.ssl_policy_id else pos 0

-- The body of the loop over the servers of a page: what is appended to `exact`.
unfoldable pub exact_target : String → ServerResponse → Result (List ServerTarget)
unfolding contains_exact_name
exact_target ip server = elim server.names [
  | none ↦ err (unexpected "server names")
  | some names ↦
      let target : HttpsConfig → Result (List ServerTarget) = λ https. ok (
        (record {
          id = server.id;
          user_id = server.user_id;
          policy_id = policy_of https.ssl_policy_ref;
          https_is_on = https.is_on;
        })
        ∷ []) in
      if contains_exact_name names ip
      then (elim server.https [
        | missing ↦ err (message "invalid HTTPS configuration")
        | invalid ↦ err (message "invalid HTTPS configuration")
        | present https ↦ target https
      ])
      else ok []
]

abbrev pub append_found :
    List ServerTarget → Result (List ServerTarget) → Result (List ServerTarget)
append_found found (ok more) = ok (found ++ more)
append_found found (err e) = err e

unfoldable pub exact_targets : String → List ServerResponse → Result (List ServerTarget)
unfolding exact_target
exact_targets ip [] = ok []
exact_targets ip (server ∷ servers) =
    on (exact_target ip server) (λ found. append_found found (exact_targets ip servers))
      (λ e. err e)

-- What DiscoverServer makes of all that matched.
unfoldable pub the_target : List ServerTarget → Result ServerTarget
the_target [] = err (known server_not_found)
the_target (target ∷ []) =
    if not target.https_is_on || not_positive target.policy_id
    then err (message "server has no HTTPS SSL policy")
    else ok target
the_target (target ∷ _ ∷ _) = err (known multiple_servers)

abbrev pub lift : {X A : Type 0} → Result A → Action (Session X) A
lift r = on r (λ a. pass a) (λ e. fail e)

unfoldable pub insert_website : Website → List Website → List Website
unfolding text_before
insert_website w [] = w ∷ []
insert_website w (v ∷ vs) =
    let rest = insert_website w vs in if text_before v.ipv4 w.ipv4 then v ∷ rest else w ∷ v ∷ vs

-- sort.Slice by IPv4, where no two are equal
unfoldable pub sort_websites : List Website → List Website
unfolding insert_website
sort_websites [] = []
sort_websites (w ∷ ws) = insert_website w (sort_websites ws)

-- counts[ip]
unfoldable pub count_ipv4 : String → List Website → ℕ
count_ipv4 ip [] = 0
count_ipv4 ip (w ∷ ws) = let n = count_ipv4 ip ws in if w.ipv4 =s= ip then suc n else n

unfoldable pub unique_in : List Website → List Website → List Website
unfolding count_ipv4
unique_in all [] = []
unique_in all (w ∷ ws) =
    let rest = unique_in all ws in if count_ipv4 w.ipv4 all == 1 then w ∷ rest else rest

-- The identity of a server that is one complete name, if that is a canonical public address.
unfoldable pub is_identity : String → Bool
is_identity identity =
    on (parse_public (codes identity)) (λ ip. same_text (print ip) (codes identity)) (λ e. false)

unfoldable pub the_identity : List ServerName → Option String
unfolding is_identity
the_identity (name ∷ []) =
    if name.name =s= ""
      || not (length name.sub_names == 0)
      || not (name.type =s= "") && not (name.type =s= "full")
    then none
    else if is_identity name.name
    then some name.name
    else none
the_identity _ = none

unfoldable pub placed : Bool → Option SslPolicyRef → Option NodeCluster → Option (ℤ × NodeCluster)
placed https_is_on (some ref) (some cluster) =
    if not https_is_on || not ref.is_on || not_positive ref.ssl_policy_id || not_positive cluster.id
    then none
    else some (ref.ssl_policy_id, cluster)
placed https_is_on _ _ = none

-- The policy and the cluster of a server that has both.
unfoldable pub placement : Field HttpsConfig → Option NodeCluster → Option (ℤ × NodeCluster)
unfolding placed
placement (present https) cluster = placed https.is_on https.ssl_policy_ref cluster
placement _ cluster = none

-- (valid, online)
unfoldable pub node_state : List Node → Bool × Bool
node_state [] = (false, false)
node_state (node ∷ nodes) =
    let (valid, online) = node_state nodes in
    let serving = node.is_installed && node.is_on in
    (serving || valid, serving && node.is_up || online)

module _ {X D : Type 0} (api : Api X D) where
  unfoldable pub discover_pages :
      ℕ → ℕ → String → List ServerTarget → Action (Session X) (List ServerTarget)
  unfolding exact_targets
  discover_pages zero offset ip exact = pass exact
  discover_pages (suc rounds) offset ip exact = do
    servers ← call api (list_servers (some ip) offset) api.decode.servers
    found ← lift (exact_targets ip servers)
    if length servers == 0 || ltb (length servers) page_size
        then pass (exact ++ found)
        else discover_pages rounds (offset + page_size) ip (exact ++ found)

  unfoldable pub discover_server : String → Action (Session X) ServerTarget
  unfolding discover_pages the_target
  discover_server ip = do
    count ← call api (count_servers (some ip)) api.decode.count
    refuse_if (not_positive count) (known server_not_found)
    refuse_if (ltb_ℤ max_server_candidates count) (message "too many candidates")
    exact ← discover_pages (pages_of count) 0 ip []
    lift (the_target exact)

  unfoldable pub cluster_node_state : ℤ → Action (Session X) (Bool × Bool)
  unfolding node_state
  cluster_node_state cluster = do
    nodes ← call api (list_nodes cluster) api.decode.nodes
    pass (node_state nodes)

abbrev pub the_website : Patterns → ServerResponse → String → ℤ → NodeCluster → Bool → Website
the_website patterns server identity policy_id cluster online = record {
  server_id = server.id;
  user_id = server.user_id;
  name = redact patterns [] (if server.name =s= "" then identity else server.name);
  ipv4 = identity;
  policy_id = policy_id;
  cluster_id = cluster.id;
  cluster = redact patterns [] cluster.name;
  node_online = online;
}

module _ {X D : Type 0} (api : Api X D) (patterns : Patterns) where
  -- From the identity, the policy and the cluster on.
  unfoldable pub website_of :
      ServerResponse → String → ℤ → NodeCluster → Action (Session X) (Option Website)
  unfolding cluster_node_state
  website_of server identity policy_id cluster = do
    state ← cluster_node_state api cluster.id
    if not (state.0) then pass none else (do
      ssl_policy ← policy api policy_id
      if not ssl_policy.is_on
          then pass none
          else pass (some (the_website patterns server identity policy_id cluster (state.1))))

  unfoldable pub eligible_website : ServerResponse → Action (Session X) (Option Website)
  unfolding the_identity placement website_of
  eligible_website server = on_option server.names (fail (unexpected "server names")) λ names.
      on_option (the_identity names) (pass none) λ identity.
        on_option (placement server.https server.node_cluster) (pass none)
          λ place. website_of server identity (place.0) (place.1)

  unfoldable pub eligible_websites : List ServerResponse → Action (Session X) (List Website)
  unfolding eligible_website
  eligible_websites [] = pass []
  eligible_websites (server ∷ servers) = do
    website ← eligible_website server
    rest ← eligible_websites servers
    pass (on_option website rest (λ w. w ∷ rest))

  unfoldable pub website_pages : ℕ → ℕ → List Website → Action (Session X) (List Website)
  unfolding eligible_websites
  website_pages zero offset result = pass result
  website_pages (suc rounds) offset result = do
    servers ← call api (list_servers none offset) api.decode.servers
    found ← eligible_websites servers
    if ltb (length servers) page_size
        then pass (result ++ found)
        else website_pages rounds (offset + page_size) (result ++ found)

  unfoldable pub list_eligible_websites : Action (Session X) (List Website)
  unfolding website_pages unique_in sort_websites
  list_eligible_websites = do
    count ← call api (count_servers none) api.decode.count
    refuse_if (ltb_ℤ count (pos 0) || ltb_ℤ max_server_candidates count)
        (message "too many websites")
    result ← website_pages (pages_of count) 0 []
    pass (sort_websites (unique_in result result))
