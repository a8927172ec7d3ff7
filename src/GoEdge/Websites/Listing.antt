-- ===== src/GoEdge/Websites/Listing.antt =====
-- When a website is eligible, and what the parts of ListEligibleWebsites keep of it.
use mathlib.Core.Path.{subst}
use mathlib.Core.List.{Memᴰ}
use goedge_ip_cert.Ipv4.{Addr, codes, parse_public}
use goedge_ip_cert.Ipv4.Canonical.{Canonical, parse_public-Canonical}
use goedge_ip_cert.Action.Success.{Result-cases}
use goedge_ip_cert.GoEdge.Certificates.{policy}
use mathlib.Core.Option.{some-injective}
use goedge_ip_cert.Prelude.{
  ℕ, ◌≡◌, refl, ap, String, Bool, true, false, Option, none, some, List, [], ◌∷◌, ◌++◌, Bool-cases,
  inl, inr, arith, ◌==◌, if◌then◌else◌, not, ◌||◌, ◌&&◌,
}
use goedge_ip_cert.Prelude.Int.{ℤ, not_positive}
use goedge_ip_cert.Action.{ok, Action, on_option}
use goedge_ip_cert.Action.Returns.{Returns, Returns-pass, Returns-bind}
use goedge_ip_cert.Text.{text_before}
use goedge_ip_cert.GoEdge.Model.{SslPolicy, Website, ServerName, SslPolicyRef}
use goedge_ip_cert.GoEdge.Api.{
  list_servers, list_nodes, Node, Api, ServerResponse, NodeCluster, Field, missing, invalid,
  present, HttpsConfig,
}
use goedge_ip_cert.GoEdge.Client.{call}
use goedge_ip_cert.GoEdge.Servers.{
  placed, is_identity, the_identity, placement, insert_website, sort_websites, unique_in,
  count_ipv4, node_state, cluster_node_state,
}

-- The names of the server are one complete name, and that is a canonical public address.
pub record IsNamed (server : ServerResponse) (identity : String) : Type 0 where
  pub name : ServerName
  pub only_name : server.names ≡ some (name ∷ [])
  pub is_it : name.name ≡ identity
  pub address : Addr
  pub canonical : Canonical (codes identity) address

-- HTTPS is on, with a reference to the policy that is on, and there is a cluster.
pub record IsPlaced (server : ServerResponse) (policy_id cluster_id : ℤ) : Type 0 where
  pub https : HttpsConfig
  pub has_https : server.https ≡ present https
  pub https_is_on : https.is_on ≡ true
  pub ref : SslPolicyRef
  pub has_ref : https.ssl_policy_ref ≡ some ref
  pub ref_is_on : ref.is_on ≡ true
  pub names_policy : ref.ssl_policy_id ≡ policy_id
  pub has_policy : not_positive policy_id ≡ false
  pub cluster : NodeCluster
  pub has_cluster : server.node_cluster ≡ some cluster
  pub is_cluster : cluster.id ≡ cluster_id
  pub has_cluster_id : not_positive cluster_id ≡ false

pub data AllEligible (P : Website → Type 0) : List Website → Type 0 where
  no_more : AllEligible P []
  one_more : (w : Website) (ws : List Website) → P w → AllEligible P ws → AllEligible P (w ∷ ws)

module _ {P : Website → Type 0} where
  pub append-AllEligible :
      (ws vs : List Website) → AllEligible P ws → AllEligible P vs → AllEligible P (ws ++ vs)
  append-AllEligible [] vs h k = k
  append-AllEligible (w ∷ ws) vs (one_more _ _ e h) k =
      one_more w (ws ++ vs) e (append-AllEligible ws vs h k)

  insert-AllEligible :
      (w : Website) (ws : List Website)
      → P w
      → AllEligible P ws
      → AllEligible P (insert_website w ws)
  unfolding insert_website
  insert-AllEligible w [] e h = one_more w [] e h
  insert-AllEligible w (v ∷ vs) e (one_more _ _ d h) =
      elim (Bool-cases (text_before v.ipv4 w.ipv4)) [
        | inl t ↦ rw (t, insert_website) (one_more v _ d (insert-AllEligible w vs e h))
        | inr t ↦ rw (t, insert_website) (one_more w _ e (one_more v vs d h))
      ]

  pub sort-AllEligible : (ws : List Website) → AllEligible P ws → AllEligible P (sort_websites ws)
  unfolding sort_websites
  sort-AllEligible [] h = h
  sort-AllEligible (w ∷ ws) (one_more _ _ e h) =
      insert-AllEligible w (sort_websites ws) e (sort-AllEligible ws h)

  pub unique-AllEligible :
      (all ws : List Website) → AllEligible P ws → AllEligible P (unique_in all ws)
  unfolding unique_in
  unique-AllEligible all [] h = h
  unique-AllEligible all (w ∷ ws) (one_more _ _ e h) =
      elim (Bool-cases (count_ipv4 w.ipv4 all == 1)) [
        | inl t ↦ rw (t, unique_in) (one_more w _ e (unique-AllEligible all ws h))
        | inr t ↦ rw (t, unique_in) (unique-AllEligible all ws h)
      ]

chosen :
    (b c : Bool) (x y : String)
    → (if b then none else if c then some x else none) ≡ some y
    → (c ≡ true) × (x ≡ y)
chosen true c x y h = absurd cc
chosen false true x y h = (refl, some-injective _ _ h)
chosen false false x y h = absurd cc

identity-Canonical :
    (identity : String)
    → is_identity identity ≡ true
    → (address : Addr) × Canonical (codes identity) address
unfolding is_identity
identity-Canonical identity h = elim (Result-cases (parse_public (codes identity))) [
  | inl (ip, e) ↦ (ip, parse_public-Canonical (codes identity) ip e)
  | inr (x, e) ↦ absurd (let g = rw (e, is_identity) at h in cc)
]

pub the_identity_lem :
    (server : ServerResponse) (names : List ServerName) (identity : String)
    → server.names ≡ some names
    → the_identity names ≡ some identity
    → IsNamed server identity
unfolding the_identity
the_identity_lem server [] identity s h = absurd cc
the_identity_lem server (name ∷ []) identity s h =
    let c = chosen _ _ _ _ h in
    let known = identity-Canonical identity (subst (λ x. is_identity x ≡ true) c.1 c.0) in
    record { name = name; only_name = s; is_it = c.1; address = known.0; canonical = known.1 }
the_identity_lem server (name ∷ _ ∷ _) identity s h = absurd cc

all_clear :
    {A : Type 0} (a b c d : Bool) (x y : A)
    → (if not a || not b || c || d then none else some x) ≡ some y
    → (a ≡ true) × (b ≡ true) × (c ≡ false) × (d ≡ false) × (x ≡ y)
all_clear false b c d x y h = absurd cc
all_clear true false c d x y h = absurd cc
all_clear true true true d x y h = absurd cc
all_clear true true false true x y h = absurd cc
all_clear true true false false x y h = (refl, refl, refl, refl, some-injective _ _ h)

placement-IsPlaced :
    (server : ServerResponse) (field : Field HttpsConfig) (ref : Option SslPolicyRef)
    (at : Option NodeCluster) (https : HttpsConfig) (policy_id : ℤ) (cluster : NodeCluster)
    → server.https ≡ present https
    → https.ssl_policy_ref ≡ ref
    → server.node_cluster ≡ at
    → placed https.is_on ref at ≡ some (policy_id, cluster)
    → IsPlaced server policy_id cluster.id
unfolding placed
placement-IsPlaced server field none at https policy_id cluster s r c h = absurd cc
placement-IsPlaced server field (some ref) none https policy_id cluster s r c h = absurd cc
placement-IsPlaced server field (some ref) (some at) https policy_id cluster s r c h =
    let k =
      all_clear https.is_on ref.is_on (not_positive ref.ssl_policy_id) (not_positive at.id)
        (ref.ssl_policy_id, at) (policy_id, cluster) h in
    record {
      https = https;
      has_https = s;
      https_is_on = k.0;
      ref = ref;
      has_ref = r;
      ref_is_on = k.1;
      names_policy = ap (λ t. t.0) k.4;
      has_policy = subst (λ n. not_positive n ≡ false) (ap (λ t. t.0) k.4) k.2;
      cluster = at;
      has_cluster = c;
      is_cluster = ap (λ t. t.1.id) k.4;
      has_cluster_id = subst (λ n. not_positive n.id ≡ false) (ap (λ t. t.1) k.4) k.3;
    }

pub placement_lem :
    (server : ServerResponse) (https : Field HttpsConfig) (policy_id : ℤ) (cluster : NodeCluster)
    → server.https ≡ https
    → placement https server.node_cluster ≡ some (policy_id, cluster)
    → IsPlaced server policy_id cluster.id
unfolding placement
placement_lem server missing policy_id cluster s h = absurd cc
placement_lem server invalid policy_id cluster s h = absurd cc
placement_lem server (present https) policy_id cluster s h =
    placement-IsPlaced server missing https.ssl_policy_ref server.node_cluster https policy_id
      cluster s refl refl h

-- A node of the cluster is installed and on.
pub record IsServing (nodes : List Node) : Type 0 where
  pub node : Node
  pub listed : Memᴰ node nodes
  pub installed : node.is_installed ≡ true
  pub is_on : node.is_on ≡ true

both : (a b : Bool) → (a && b) ≡ true → (a ≡ true) × (b ≡ true)
both a b h = ground arith

pub node_state-IsServing : (nodes : List Node) → (node_state nodes).0 ≡ true → IsServing nodes
unfolding node_state
node_state-IsServing [] h = absurd cc
node_state-IsServing (node ∷ nodes) h = elim (Bool-cases (node.is_installed && node.is_on)) [
  | inl e ↦
      let k = both _ _ e in
      record { node = node; listed = Memᴰ.head refl; installed = k.0; is_on = k.1 }
  | inr e ↦
      let k = node_state-IsServing nodes (rw (e, node_state) at h) in
      record {
        node = k.node;
        listed = Memᴰ.tail k.listed;
        installed = k.installed;
        is_on = k.is_on;
      }
]

abbrev pub EligibleOption : (Website → Type 0) → Option Website → Type 0
EligibleOption P none = Unit {0}
EligibleOption P (some w) = P w

pub add_one :
    {P : Website → Type 0} (o : Option Website) (rest : List Website)
    → EligibleOption P o
    → AllEligible P rest
    → AllEligible P (on_option o rest (λ w. w ∷ rest))
add_one none rest e h = h
add_one (some w) rest e h = one_more w rest e h

-- An answer of the action, at some state.
pub Answers : {S A : Type 0} → Action S A → A → Type 0
Answers {S = S} m a = (s : S) × ((m s).0 ≡ ok a)

pub Returns-Answers : {S A : Type 0} (m : Action S A) → Returns (Answers m) m
unfolding Answers
Returns-Answers m = record { at = λ s a h. (s, h) }

module _ {X D : Type 0} (api : Api X D) where
  -- The server is in a page that the EdgeAPI has answered with.
  pub record IsListed (server : ServerResponse) : Type 0 where
    pub offset : ℕ
    pub servers : List ServerResponse
    pub answered : Answers (call api (list_servers none offset) api.decode.servers) servers
    pub listed : Memᴰ server servers

  -- A listed server has this one name, HTTPS with this policy, and this cluster; the policy is on, and a
  -- node of the cluster serves.
  pub record Eligible (w : Website) : Type 0 where
    pub server : ServerResponse
    pub is_listed : IsListed server
    pub has_id : server.id ≡ w.server_id
    pub named : IsNamed server w.ipv4
    pub placed_at : IsPlaced server w.policy_id w.cluster_id
    pub found : SslPolicy
    pub has_policy : Answers (policy api w.policy_id) found
    pub policy_is_on : found.is_on ≡ true
    pub nodes : List Node
    pub has_nodes : Answers (call api (list_nodes w.cluster_id) api.decode.nodes) nodes
    pub serving : IsServing nodes

  -- What the state of a cluster is read from.
  unfoldable pub FromNodes : ℤ → Bool × Bool → Type 0
  FromNodes cluster state =
      (nodes : List Node) × Answers (call api (list_nodes cluster) api.decode.nodes) nodes
      × (node_state nodes ≡ state)

  pub cluster-FromNodes :
      (cluster : ℤ) → Returns (FromNodes cluster) (cluster_node_state api cluster)
  unfolding cluster_node_state FromNodes
  cluster-FromNodes cluster =
      Returns-bind _ _ _ (Returns-Answers _) (λ nodes a. Returns-pass _ (nodes, a, refl))
