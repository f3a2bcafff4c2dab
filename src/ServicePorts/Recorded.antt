-- ===== src/ServicePorts/Recorded.antt =====
-- The ports that `updateLoadBalancerStatus` records, against the reading of `LoadState`
-- (internal/port-lookup/allocator.go).
use kubelb_ce.Base.{ℕ, ◌≡◌, ◌≢◌, refl, ◌∙◌}
use kubelb_ce.Base.{true, Option, none, some, List, [], ◌∷◌, arith}
use kubelb_ce.Base.{text_eq, nat_eq, ◌>>=◌}
use kubelb_ce.Base.Text.{Text}
use kubelb_ce.Api.{
  EndpointPort, LoadBalancerPort, LoadBalancerEndpoints, LoadBalancer, ServicePort, StatusPort,
  Service,
}
use kubelb_ce.ServicePorts.{
  text_lt, upstream_port, allocated_or, existing_node_port, find_port, service_port, service_ports,
  insert_by_name, sort_by_name, create_service_ports, status_ports,
}
use kubelb_ce.ServicePorts.Order.{text_lt_asymm}
use kubelb_ce.Ports.Load.{is_status_of, status_port}

text_lt_irrefl : (s t : Text) → s ≡ t → text_lt s t ≡ true → ⊥
text_lt_irrefl s t e h = cc (text_lt_asymm s t h, rw e at h)

module _ (lookup : Text → Text → Option ℕ) where
  -- The service ports of two endpoint ports whose names are out of order.
  pub swapped :
      (namespace name : Text) (p q : EndpointPort) (l m : LoadBalancerPort)
      (existing : List ServicePort)
      → text_lt m.name l.name ≡ true
      → (s : ServicePort) × (t : ServicePort) × ((service_ports lookup namespace name
              (p ∷ q ∷ [])
              existing
              0
              (l ∷ m ∷ [])
            >>= λ desired. some (sort_by_name desired))
          ≡ some (t ∷ s ∷ []))
        × (s.name ≡ l.name)
        × (t.name ≡ m.name)
  unfolding service_ports service_port upstream_port sort_by_name insert_by_name
  swapped namespace name p q l m existing before = (
    record {
      name = l.name;
      protocol = l.protocol;
      port = l.port;
      target_port =
          allocated_or lookup namespace name
            (elim (find_port l.name (p ∷ q ∷ [])) [ none ↦ p.port | some port ↦ port ]) l.protocol;
      node_port = existing_node_port l existing;
    },
    record {
      name = m.name;
      protocol = m.protocol;
      port = m.port;
      target_port =
          allocated_or lookup namespace name
            (elim (find_port m.name (p ∷ q ∷ [])) [ none ↦ q.port | some port ↦ port ]) m.protocol;
      node_port = existing_node_port m existing;
    },
    rw before,
    refl,
    refl,
  )

-- Two status ports, recorded in the other order than the endpoint ports.
lost :
    (p q : EndpointPort) (s t : ServicePort)
    → text_lt t.name s.name ≡ true
    → s.name ≡ p.name
    → p.port ≢ q.port
    → status_port p (
        record { service_port = t; upstream_target_port = p.port }
        ∷ record { service_port = s; upstream_target_port = q.port }
        ∷ [])
      ≡ none
unfolding status_port is_status_of
lost p q s t before named apart =
    ground (arith, λ (e : t.name ≡ s.name). text_lt_irrefl t.name s.name e before)

lost_second :
    (p q : EndpointPort) (s t : ServicePort)
    → text_lt t.name s.name ≡ true
    → t.name ≡ q.name
    → p.port ≢ q.port
    → status_port q (
        record { service_port = t; upstream_target_port = p.port }
        ∷ record { service_port = s; upstream_target_port = q.port }
        ∷ [])
      ≡ none
unfolding status_port is_status_of
lost_second p q s t before named apart =
    ground (arith, λ (e : t.name ≡ s.name). text_lt_irrefl t.name s.name e before)

-- Two ports of a load balancer whose names are out of order, with endpoint ports of the same names:
-- the service is made, and its status is recorded, but `LoadState` finds neither endpoint port in
-- that status again.
pub recorded_out_of_order :
    (lookup : Text → Text → Option ℕ) (lb : LoadBalancer) (svc : Service)
    (e : LoadBalancerEndpoints) (p q : EndpointPort) (l m : LoadBalancerPort)
    → lb.spec.endpoints ≡ e ∷ []
    → e.ports ≡ p ∷ q ∷ []
    → lb.spec.ports ≡ l ∷ m ∷ []
    → l.name ≡ p.name
    → m.name ≡ q.name
    → text_lt m.name l.name ≡ true
    → p.port ≢ q.port
    → (desired : List ServicePort) × (recorded : List StatusPort) × (create_service_ports lookup lb
          svc
        ≡ some desired)
      × (status_ports e.ports 0 desired ≡ some recorded)
      × (status_port p recorded ≡ none)
      × (status_port q recorded ≡ none)
unfolding create_service_ports status_ports
recorded_out_of_order lookup lb svc e p q l m endpoints ports lb_ports lp mq before apart =
    let (s, t, made, sl, tm) =
      swapped lookup lb.meta.namespace lb.meta.name p q l m svc.ports before in
    let order : text_lt t.name s.name ≡ true = rw (sl, tm) before in
    (
      t ∷ s ∷ [],
      record { service_port = t; upstream_target_port = p.port }
          ∷ record { service_port = s; upstream_target_port = q.port }
          ∷ [],
      rw (endpoints, lb_ports, ports) made,
      rw ports,
      lost p q s t order (sl ∙ lp) apart,
      lost_second p q s t order (tm ∙ mq) apart,
    )
