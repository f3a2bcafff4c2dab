-- ===== src/LoadBalancerController/Cleanup/Finalizers.antt =====
-- What a run of `cleanup` (internal/controllers/kubelb/loadbalancer_controller.go) leaves behind, in
-- the order of its calls and on each of its errors.
use kubelb_ce.Base.{◌≡◌, arith, none, not, ◌&&◌, List, [], ◌∷◌, ◌++◌}
use kubelb_ce.Base.{text_eq, contains, if◌then◌else◌}
use kubelb_ce.Base.Text.{Text, txt}
use kubelb_ce.Api.{LoadBalancer, StringMap}
use kubelb_ce.Cluster.{Kind, Client, World, Result}
use kubelb_ce.Cluster.Records.{saved, gone}
use kubelb_ce.Ports.{lookup}
use kubelb_ce.Ports.Mapper.{job_keys, endpoint_jobs, deallocate_ports_for_load_balancer}
use kubelb_ce.Ports.Remove.{lookup-deallocate_endpoints}
use kubelb_ce.LoadBalancerController.{
  Topology, Setup, service_name, resource_namespace, with_finalizers, envoy_proxy_cleanup_finalizer,
  hostname_cleanup_finalizer,
}
use kubelb_ce.LoadBalancerController.Hostname.{exposed_meta}
use kubelb_ce.Finalizers.{cleanup_finalizer, remove_finalizer, contains-remove_finalizer}
use kubelb_ce.Cluster.{request, request_of}
use kubelb_ce.LoadBalancerController.Cleanup.{
  without_finalizers, ingress_name, http_route_name, cleanup,
}

-- The finalizers that a cleanup removes: that of the controller, its old one, and that of a hostname.
abbrev pub controller_finalizers : List Text
controller_finalizers =
    cleanup_finalizer ∷ envoy_proxy_cleanup_finalizer ∷ hostname_cleanup_finalizer ∷ []

pub contains-without_finalizers :
    (lb : LoadBalancer) (f : Text)
    → contains (without_finalizers lb).meta.finalizers f
      ≡ (contains lb.meta.finalizers f && not (contains controller_finalizers f))
unfolding without_finalizers
contains-without_finalizers lb f = ground (
  arith,
  contains-remove_finalizer hostname_cleanup_finalizer
      (remove_finalizer envoy_proxy_cleanup_finalizer
        (remove_finalizer cleanup_finalizer lb.meta.finalizers))
      f,
  contains-remove_finalizer envoy_proxy_cleanup_finalizer
      (remove_finalizer cleanup_finalizer lb.meta.finalizers) f,
  contains-remove_finalizer cleanup_finalizer lb.meta.finalizers f,
)

-- Of the finalizers `fs`, `f` is one exactly if the load balancer has it and it is none of those.
abbrev pub IsFreed : LoadBalancer → Text → List Text → Type 0
IsFreed lb f fs =
    contains fs f ≡ (contains lb.meta.finalizers f && not (contains controller_finalizers f))

module _ {S : Type 0} (client : Client S) (topology : Topology) where
  abbrev pub Saves : World S → LoadBalancer → Text → Result Unit × World S → Type 0
  Saves w lb f (Result.ok _, w') =
      let fs = (without_finalizers lb).meta.finalizers in
      (saved w'.writes ≡ with_finalizers fs lb ∷ saved w.writes) × IsFreed lb f fs
  Saves w lb f (_, w') = saved w'.writes ≡ saved w.writes

  -- A cleanup that ends well has saved the load balancer once, as it was but for its finalizers: of
  -- these it has exactly those that are neither of the two of the controller nor that of a
  -- hostname. One that fails has saved none. A load balancer counts as saved when an update of it
  -- succeeded.
  pub saved-cleanup :
      (lb : LoadBalancer) (ns : Text) (w : World S) (f : Text)
      → Saves w lb f (cleanup client topology lb ns w)
  unfolding cleanup saved without_finalizers
  saved-cleanup lb ns w f = ground (arith, contains-without_finalizers lb f)

  -- However a cleanup ends, the endpoints of its load balancer have lost all their ports, and every
  -- other endpoint has the ports it had.
  pub lookup-cleanup :
      (lb : LoadBalancer) (ns : Text) (w : World S) (e k : Text)
      → lookup (cleanup client topology lb ns w).1.ports e k ≡ (
          if contains
            (job_keys (endpoint_jobs lb.meta.namespace lb.meta.name 0 lb.spec.endpoints))
            e
          then none
          else lookup w.ports e k)
  unfolding cleanup deallocate_ports_for_load_balancer
  lookup-cleanup lb ns w e k = ground (
    arith,
    lookup-deallocate_endpoints w.ports
        (job_keys (endpoint_jobs lb.meta.namespace lb.meta.name 0 lb.spec.endpoints)) e k,
  )

-- Under the shared topology, when the cleanup of a load balancer ends well, its service is gone, and
-- before it, if the load balancer had the finalizer of a hostname, the HTTP route and the ingress
-- are, under the names and in the namespace with which they are created: each was deleted by the
-- run or found missing. No other object was deleted.
pub gone-cleanup :
    {S : Type 0} (client : Client S) (setup : Setup) (lb : LoadBalancer) (a b : StringMap)
    (w : World S)
    → setup.topology ≡ Topology.shared
    → let run = cleanup client setup.topology lb (resource_namespace setup lb.meta.namespace) w in
      run.0 ≡ Result.ok tt
      → gone run.1.writes
        ≡ (Kind.service, request (txt "envoy-" ++ lb.meta.name) lb.meta.namespace)
          ∷ (if contains lb.meta.finalizers hostname_cleanup_finalizer
              then (Kind.http_route, request_of (exposed_meta lb (http_route_name lb) a))
                ∷ (Kind.ingress, request_of (exposed_meta lb (ingress_name lb) b))
                ∷ gone w.writes
              else gone w.writes)
unfolding cleanup gone resource_namespace service_name exposed_meta
gone-cleanup client setup lb a b w shared = rw shared (λ h. ground arith)
