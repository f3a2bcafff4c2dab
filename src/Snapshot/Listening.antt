-- ===== src/Snapshot/Listening.antt =====
-- The ports on which the listeners of `MapSnapshot` (internal/envoy/resource.go) listen for the
-- first endpoint of a load balancer.
use kubelb_ce.Base.{ℕ, ◌+◌, ◌≡◌, refl, ◌⊎◌, inl, inr, Bool-cases}
use kubelb_ce.Base.{Bool, true, false, not, ◌||◌, ◌&&◌, Option, some, List, [], ◌∷◌, ◌++◌, arith}
use kubelb_ce.Base.{text_eq, nat_eq, ◌==◌, >>=-eq-some, if◌then◌else◌}
use kubelb_ce.Base.Dict.{Dict}
use kubelb_ce.Base.Lists.{All}
use kubelb_ce.Base.Text.{Text}
use kubelb_ce.Api.{EndpointAddress, EndpointPort, LoadBalancerEndpoints, LoadBalancer, Route}
use kubelb_ce.Keys.{endpoint_key, listener_key, resource_identifier}
use kubelb_ce.Ports.{PortAllocator}
use kubelb_ce.Snapshot.{
  Resources, no_resources, listener_port, resolve_endpoint, add_port, add_ports, add_endpoints,
  add_load_balancers,
}
use kubelb_ce.Snapshot.Xds.{
  Cluster, Listener, tcp_listener, udp_listener, l4_listeners, target_cluster, tcp, udp,
}
use kubelb_ce.Snapshot.Routes.{Snapshot, map_resources, map_snapshot}
use kubelb_ce.Snapshot.Induction.{
  add_ports-keeps, add_endpoints-keeps, add_load_balancers-keeps, add_routes-keeps,
}

-- The listener takes the protocol's traffic on the port.
unfoldable pub serves : Text → ℕ → Listener → Bool
serves protocol port l = l.port == port && (if protocol == udp then l.datagram else not l.datagram)

unfoldable pub listens : Text → ℕ → List Listener → Bool
listens protocol port [] = false
listens protocol port (l ∷ ls) = serves protocol port l || listens protocol port ls

-- An endpoint port with the number and the protocol.
unfoldable pub offers : List EndpointPort → ℕ → Text → Bool
offers [] port protocol = false
offers (p ∷ ports) port protocol =
    (p.port == port && p.protocol == protocol) || offers ports port protocol

abbrev pub IsL4 : Text → Type 0
IsL4 protocol = (protocol ≡ tcp) ⊎ (protocol ≡ udp)

pub listens-append :
    (protocol : Text) (port : ℕ) (ls ms : List Listener)
    → listens protocol port (ls ++ ms) ≡ (listens protocol port ls || listens protocol port ms)
unfolding listens
listens-append protocol port [] ms = refl
listens-append protocol port (l ∷ ls) ms = ground (arith, listens-append protocol port ls ms)

pub tcp_ne_udp : (tcp == udp) ≡ false
unfolding text_eq
tcp_ne_udp = refl

listens-l4_listeners :
    (key protocol : Text) (port : ℕ)
    → IsL4 protocol
    → listens protocol port (l4_listeners key protocol port) ≡ true
unfolding l4_listeners listens serves tcp_listener udp_listener
listens-l4_listeners key protocol port (inl is_tcp) = rw is_tcp (ground (arith, tcp_ne_udp))
listens-l4_listeners key protocol port (inr is_udp) = rw is_udp (ground (arith, tcp_ne_udp))

-- The port on which the port `target` of the first endpoint of a load balancer is served.
abbrev pub served : Option PortAllocator → Text → Text → ℕ → Text → ℕ
served pa namespace name target protocol =
    listener_port pa (endpoint_key namespace name 0) (listener_key target protocol) target

module _ (get_addresses : Text → Text → Option (List EndpointAddress)) (pa : Option PortAllocator)
    (protocol : Text) (port : ℕ) where
  abbrev Listens : Resources → Type 0
  Listens r = listens protocol port r.listeners ≡ true

  pub Listens-learn :
      (r : Resources) (known : Dict Text (List EndpointAddress))
      → Listens r
      → Listens (record r { addresses = known })
  Listens-learn r known h = h

  pub Listens-add :
      (r : Resources) (c : Cluster) (ms : List Listener)
      → All (λ (m : Listener). target_cluster m.filter ≡ c.name) ms
      → Listens r
      → Listens (record r { clusters = r.clusters ++ c ∷ []; listeners = r.listeners ++ ms })
  Listens-add r c ms named h = ground (arith, listens-append protocol port r.listeners ms)

module _ (get_addresses : Text → Text → Option (List EndpointAddress)) (pa : Option PortAllocator)
    (namespace name : Text) where
  listens-add_port :
      (addresses : List EndpointAddress) (p : EndpointPort) (r : Resources)
      → IsL4 p.protocol
      → listens p.protocol
          (served pa namespace name p.port p.protocol)
          (add_port get_addresses pa namespace name 0 addresses p r).listeners
        ≡ true
  unfolding add_port
  listens-add_port addresses p r l4 =
      let key = resource_identifier namespace name 0 p.port p.protocol in
      let at = served pa namespace name p.port p.protocol in
      ground (
        arith,
        listens-append p.protocol at r.listeners (l4_listeners key p.protocol at),
        listens-l4_listeners key p.protocol at l4,
      )

  listens-add_ports :
      (addresses : List EndpointAddress) (ports : List EndpointPort) (r : Resources) (target : ℕ)
      (protocol : Text)
      → IsL4 protocol
      → offers ports target protocol ≡ true
      → listens protocol
          (served pa namespace name target protocol)
          (add_ports get_addresses pa namespace name 0 addresses ports r).listeners
        ≡ true
  unfolding add_ports offers
  listens-add_ports addresses [] r target protocol l4 h = absurd (cc)
  listens-add_ports addresses (p ∷ ports) r target protocol l4 h =
      elim (Bool-cases (p.port == target && p.protocol == protocol)) [
        | inl here ↦
            let port_is : p.port ≡ target = ground arith in
            let protocol_is : p.protocol ≡ protocol = ground arith in
            add_ports-keeps get_addresses pa
              (Listens-learn get_addresses pa protocol (served pa namespace name target protocol))
              (Listens-add get_addresses pa protocol (served pa namespace name target protocol))
              namespace name 0 addresses ports _
              (rw (← port_is, ← protocol_is) (listens-add_port addresses p r (rw protocol_is l4)))
        | inr later ↦ listens-add_ports addresses ports _ target protocol l4 (ground arith)
      ]

  listens-add_endpoints :
      (e : LoadBalancerEndpoints) (es : List LoadBalancerEndpoints) (r : Resources) {q : Resources}
      (target : ℕ) (protocol : Text)
      → IsL4 protocol
      → offers e.ports target protocol ≡ true
      → add_endpoints get_addresses pa namespace name 0 (e ∷ es) r ≡ some q
      → listens protocol (served pa namespace name target protocol) q.listeners ≡ true
  unfolding add_endpoints
  listens-add_endpoints e es r target protocol l4 h made =
      let ((addresses, known), found, later) =
        >>=-eq-some (resolve_endpoint get_addresses namespace e r.addresses) _ made in
      add_endpoints-keeps get_addresses pa
        (Listens-learn get_addresses pa protocol (served pa namespace name target protocol))
        (Listens-add get_addresses pa protocol (served pa namespace name target protocol)) namespace
        name (0 + 1) es _ later (listens-add_ports addresses e.ports _ target protocol l4 h)

module _ (get_addresses : Text → Text → Option (List EndpointAddress))
    (pa : Option PortAllocator) where
  listens-add_load_balancers :
      (xs ys : List LoadBalancer) (lb : LoadBalancer) (e : LoadBalancerEndpoints)
      (es : List LoadBalancerEndpoints) (r : Resources) {q : Resources} (target : ℕ)
      (protocol : Text)
      → lb.spec.endpoints ≡ e ∷ es
      → IsL4 protocol
      → offers e.ports target protocol ≡ true
      → add_load_balancers get_addresses pa (xs ++ lb ∷ ys) r ≡ some q
      → listens protocol (served pa lb.meta.namespace lb.meta.name target protocol) q.listeners
        ≡ true
  unfolding add_load_balancers
  listens-add_load_balancers [] ys lb e es r target protocol endpoints l4 h made =
      let (r', first, later) =
        >>=-eq-some
          (add_endpoints get_addresses pa lb.meta.namespace lb.meta.name 0 lb.spec.endpoints r) _
          made in
      add_load_balancers-keeps get_addresses pa (Listens-learn get_addresses pa protocol _)
        (Listens-add get_addresses pa protocol _) ys r' later
        (listens-add_endpoints get_addresses pa lb.meta.namespace lb.meta.name e es r target
          protocol l4 h (rw endpoints at first))
  listens-add_load_balancers (x ∷ xs) ys lb e es r target protocol endpoints l4 h made =
      let (r', first, later) =
        >>=-eq-some
          (add_endpoints get_addresses pa x.meta.namespace x.meta.name 0 x.spec.endpoints r) _
          made in
      listens-add_load_balancers xs ys lb e es r' target protocol endpoints l4 h later

  -- If a snapshot is made of load balancers and routes, then for each port that the first endpoint of
  -- one of these load balancers offers over TCP or UDP, Envoy listens on the allocated port, or on
  -- the endpoint port itself if none is allocated.
  pub listens-map_snapshot :
      (hash : List Cluster → List Listener → Option Text) (xs ys : List LoadBalancer)
      (lb : LoadBalancer) (e : LoadBalancerEndpoints) (es : List LoadBalancerEndpoints)
      (routes : List Route) {snapshot : Snapshot} (target : ℕ) (protocol : Text)
      → lb.spec.endpoints ≡ e ∷ es
      → IsL4 protocol
      → offers e.ports target protocol ≡ true
      → map_snapshot hash get_addresses (xs ++ lb ∷ ys) routes pa ≡ some snapshot
      → listens protocol
          (served pa lb.meta.namespace lb.meta.name target protocol)
          snapshot.listeners
        ≡ true
  unfolding map_snapshot map_resources
  listens-map_snapshot hash xs ys lb e es routes {snapshot} target protocol endpoints l4 h made =
      let (r, mapped, hashed) =
        >>=-eq-some (map_resources get_addresses pa (xs ++ lb ∷ ys) routes) _ made in
      let (l, first, later) =
        >>=-eq-some (add_load_balancers get_addresses pa (xs ++ lb ∷ ys) no_resources) _ mapped in
      let (version, _, result) = >>=-eq-some (hash r.clusters r.listeners) _ hashed in
      let same : r.listeners ≡ snapshot.listeners = ground (arith, result) in
      rw (← same) (
        add_routes-keeps get_addresses pa (Listens-learn get_addresses pa protocol _)
          (Listens-add get_addresses pa protocol _) routes l later
          (listens-add_load_balancers xs ys lb e es no_resources target protocol endpoints l4 h
            first))
