-- ===== src/Snapshot/Reaching.antt =====
-- The ports of `CreateServicePorts` (internal/kubelb/loadbalancer.go) against the listeners of
-- `MapSnapshot` (internal/envoy/resource.go), over one allocator.
use kubelb_ce.Base.{ℕ, ap, ◌∙◌, suc, ◌≡◌, inl, inr, Bool-cases}
use kubelb_ce.Base.{Bool, true, false, Option, none, some, List, [], ◌∷◌, ◌++◌, arith}
use kubelb_ce.Base.{>>=-eq-some}
use kubelb_ce.Base.Lists.{All}
use kubelb_ce.Base.Text.{Text}
use kubelb_ce.Api.{
  EndpointAddress, EndpointPort, LoadBalancerEndpoints, LoadBalancerPort, LoadBalancer, ServicePort,
  Service, Route,
}
use kubelb_ce.Ports.{PortAllocator, lookup}
use kubelb_ce.ServicePorts.{
  text_lt, upstream_port, allocated_or, existing_node_port, service_port, service_ports,
  insert_by_name, sort_by_name, create_service_ports,
}
use kubelb_ce.Snapshot.{listener_port}
use kubelb_ce.Snapshot.Xds.{Cluster, Listener}
use kubelb_ce.Snapshot.Routes.{Snapshot, map_snapshot}
use kubelb_ce.Snapshot.Listening.{listens, offers, IsL4, served, listens-map_snapshot}

-- The endpoint port that serves a port of the load balancer is offered over that port's protocol.
abbrev pub offers_upstream : List EndpointPort → ℕ → LoadBalancerPort → Bool
offers_upstream ports i l = elim (upstream_port ports i l) [
  | none ↦ false
  | some target ↦ offers ports target l.protocol
]

pub offers_upstream_of :
    (ports : List EndpointPort) (i : ℕ) (l : LoadBalancerPort) {target : ℕ}
    → upstream_port ports i l ≡ some target
    → offers ports target l.protocol ≡ true
    → offers_upstream ports i l ≡ true
offers_upstream_of ports i l found offered =
    ap (λ (o : Option ℕ). elim o [ none ↦ false | some t ↦ offers ports t l.protocol ]) found
    ∙ offered

-- This holds of all the ports, from index `i` on, and they are TCP or UDP.
abbrev pub IsBacked : List EndpointPort → ℕ → List LoadBalancerPort → Type 0
IsBacked ports i [] = Unit
IsBacked ports i (l ∷ ls) =
    IsL4 l.protocol × (offers_upstream ports i l ≡ true) × IsBacked ports (suc i) ls

All-insert_by_name :
    (P : ServicePort → Type 0) (p : ServicePort) (ps : List ServicePort)
    → P p
    → All P ps
    → All P (insert_by_name p ps)
unfolding insert_by_name
All-insert_by_name P p [] h hs = (h, tt)
All-insert_by_name P p (q ∷ qs) h hs = elim (Bool-cases (text_lt q.name p.name)) [
  | inl before ↦ rw before (hs.0, All-insert_by_name P p qs h hs.1)
  | inr after ↦ rw after (h, hs)
]

All-sort_by_name :
    (P : ServicePort → Type 0) (ps : List ServicePort) → All P ps → All P (sort_by_name ps)
unfolding sort_by_name
All-sort_by_name P [] h = tt
All-sort_by_name P (p ∷ ps) (h, hs) = All-insert_by_name P p _ h (All-sort_by_name P ps hs)

module _ (pa : PortAllocator) (namespace name : Text) (ports : List EndpointPort)
    (existing : List ServicePort) (ls : List Listener)
    (heard : (target : ℕ) (protocol : Text)
      → IsL4 protocol
      → offers ports target protocol ≡ true
      → listens protocol (served (some pa) namespace name target protocol) ls ≡ true) where
  abbrev Reaches : ServicePort → Type 0
  Reaches s = listens s.protocol s.target_port ls ≡ true

  service_port-Reaches :
      (i : ℕ) (l : LoadBalancerPort) {s : ServicePort}
      → IsL4 l.protocol
      → offers_upstream ports i l ≡ true
      → service_port (lookup pa) namespace name ports existing i l ≡ some s
      → Reaches s
  unfolding service_port allocated_or listener_port
  service_port-Reaches i l {s} l4 offered made =
      let (target, found, result) = >>=-eq-some (upstream_port ports i l) _ made in
      let at : listens l.protocol (served (some pa) namespace name target l.protocol) ls ≡ true =
        heard target l.protocol l4 (ground arith) in
      let same : record {
        name = l.name;
        protocol = l.protocol;
        port = l.port;
        target_port = allocated_or (lookup pa) namespace name target l.protocol;
        node_port = existing_node_port l existing;
      }
          ≡ s =
        cc result in
      rw (← same) at

  service_ports-Reaches :
      (i : ℕ) (lb_ports : List LoadBalancerPort) {made : List ServicePort}
      → IsBacked ports i lb_ports
      → service_ports (lookup pa) namespace name ports existing i lb_ports ≡ some made
      → All Reaches made
  unfolding service_ports
  service_ports-Reaches i [] {made} b h = let same : [] ≡ made = cc in rw (← same) tt
  service_ports-Reaches i (l ∷ lb_ports) {made} (l4, offered, b) h =
      let (s, first, later) =
        >>=-eq-some (service_port (lookup pa) namespace name ports existing i l) _ h in
      let (rest, others, result) =
        >>=-eq-some (service_ports (lookup pa) namespace name ports existing (suc i) lb_ports) _
          later in
      let same : s ∷ rest ≡ made = cc result in
      rw (← same)
        (service_port-Reaches i l l4 offered first, service_ports-Reaches (suc i) lb_ports b others)

-- If the ports of a load balancer are served by ports that its first endpoint offers over the same
-- protocol, TCP or UDP, then every port of the service that is made for it targets a port on which
-- the snapshot of the same allocator listens, for that protocol.
pub create_service_ports-listens :
    (hash : List Cluster → List Listener → Option Text)
    (get_addresses : Text → Text → Option (List EndpointAddress)) (pa : PortAllocator)
    (xs ys : List LoadBalancer) (lb : LoadBalancer) (e : LoadBalancerEndpoints)
    (es : List LoadBalancerEndpoints) (routes : List Route) (svc : Service) {snapshot : Snapshot}
    {made : List ServicePort}
    → lb.spec.endpoints ≡ e ∷ es
    → IsBacked e.ports 0 lb.spec.ports
    → map_snapshot hash get_addresses (xs ++ lb ∷ ys) routes (some pa) ≡ some snapshot
    → create_service_ports (lookup pa) lb svc ≡ some made
    → All (λ (s : ServicePort). listens s.protocol s.target_port snapshot.listeners ≡ true) made
unfolding create_service_ports
create_service_ports-listens hash get_addresses pa xs ys lb e es routes svc {made} endpoints b
      mapped h =
    let h' = rw endpoints at h in
    let (desired, looped, result) =
      >>=-eq-some
        (service_ports (lookup pa) lb.meta.namespace lb.meta.name e.ports svc.ports 0 lb.spec.ports)
        _ h' in
    let same : sort_by_name desired ≡ made = cc result in
    rw (← same) (
      All-sort_by_name _ desired (
        service_ports-Reaches pa lb.meta.namespace lb.meta.name e.ports svc.ports _
          (λ target protocol l4 offered.
            listens-map_snapshot get_addresses (some pa) hash xs ys lb e es routes target protocol
              endpoints l4 offered mapped)
          0 lb.spec.ports b looped))
