-- ===== src/Snapshot/Xds.antt =====
-- `makeCluster`, `makeEndpoint` and the listeners of internal/envoy/resource.go.
use kubelb_ce.Base.{ℕ, Bool, true, false, ◌||◌, not, List, [], ◌∷◌}
use kubelb_ce.Base.{text_eq, ◌==◌, if◌then◌else◌}
use kubelb_ce.Base.Text.{Text, txt}
use kubelb_ce.Api.{EndpointAddress}

abbrev pub tcp : Text
tcp = txt "TCP"

abbrev pub udp : Text
udp = txt "UDP"

-- The socket address of an upstream; its own protocol is always TCP.
pub record Backend : Type 0 where
  pub address : Text
  pub port : ℕ

unfoldable pub make_endpoint : Text → ℕ → Backend
make_endpoint address port = record { address = address; port = port }

-- Each address with the port.
unfoldable pub make_backends : List EndpointAddress → ℕ → List Backend
unfolding make_endpoint
make_backends [] port = []
make_backends (a ∷ addresses) port = make_endpoint a.ip port ∷ make_backends addresses port

-- The HTTP version that a cluster speaks to its upstreams, if one is set.
pub data Upstream : Type 0 where
  plain http1 http2 : Upstream

-- A STRICT_DNS cluster with round robin; `health_checked` stands for the TCP health check.
pub record Cluster : Type 0 where
  pub name : Text
  pub backends : List Backend
  pub health_checked : Bool
  pub upstream : Upstream

unfoldable pub is_http_route : Text → Bool
is_http_route kind = kind == txt "HTTPRoute" || (kind == txt "GRPCRoute" || kind == txt "Ingress")

unfoldable pub make_cluster : Text → List Backend → Text → Text → Cluster
make_cluster name backends protocol route_kind = record {
  name = name;
  backends = backends;
  health_checked = not (protocol == udp);
  upstream =
      if route_kind == txt "GRPCRoute"
      then http2
      else if is_http_route route_kind
      then http1
      else plain;
}

-- The filter of a listener: the proxy to its cluster.
pub data Filter : Type 0 where
  tcp_proxy : Text → Filter
  udp_proxy : Text → Filter
  http_manager : Text → Filter

-- A listener on 0.0.0.0; `datagram` tells a UDP socket, which is the only one to reuse its port.
pub record Listener : Type 0 where
  pub name : Text
  pub port : ℕ
  pub datagram : Bool
  pub filter : Filter

unfoldable pub tcp_listener : Text → Text → ℕ → Listener
tcp_listener cluster name port = record {
  name = name;
  port = port;
  datagram = false;
  filter = tcp_proxy cluster;
}

unfoldable pub udp_listener : Text → Text → ℕ → Listener
udp_listener cluster name port = record {
  name = name;
  port = port;
  datagram = true;
  filter = udp_proxy cluster;
}

unfoldable pub http_listener : Text → Text → ℕ → Listener
http_listener name cluster port = record {
  name = name;
  port = port;
  datagram = false;
  filter = http_manager cluster;
}

-- The switch on the protocol of a load balancer's port: any but TCP and UDP gets no listener.
unfoldable pub l4_listeners : Text → Text → ℕ → List Listener
l4_listeners key protocol port =
    if protocol == tcp
    then tcp_listener key key port ∷ []
    else if protocol == udp
    then udp_listener key key port ∷ []
    else []

-- The switch for a route's port, where TCP may carry HTTP.
unfoldable pub route_listeners : Bool → Text → Text → ℕ → List Listener
route_listeners is_http key protocol port =
    if protocol == tcp
    then (if is_http then http_listener key key port else tcp_listener key key port) ∷ []
    else if protocol == udp
    then udp_listener key key port ∷ []
    else []

-- The cluster to which a listener's traffic goes.
abbrev pub target_cluster : Filter → Text
target_cluster (tcp_proxy cluster) = cluster
target_cluster (udp_proxy cluster) = cluster
target_cluster (http_manager cluster) = cluster
