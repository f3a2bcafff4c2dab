-- ===== src/LoadBalancerController/Cleanup.antt =====
-- `cleanup` and `cleanupHostnameResources` of internal/controllers/kubelb/loadbalancer_controller.go.

pub mod Finalizers
use kubelb_ce.Base.{Bool, List, [], ◌∷◌, ◌++◌}
use kubelb_ce.Base.{text_eq, contains, if◌then◌else◌}
use kubelb_ce.Base.Text.{Text, txt}
use kubelb_ce.Api.{LoadBalancer}
use kubelb_ce.Cluster.{Kind, Client, World, Result, Action, pure, ◌>>=◌, ◌>>◌, delete, update}
use kubelb_ce.Ports.Mapper.{deallocate_ports_for_load_balancer}
use kubelb_ce.LoadBalancerController.{
  Topology, Setup, service_name, with_finalizers, envoy_proxy_cleanup_finalizer,
  hostname_cleanup_finalizer,
}
use kubelb_ce.Cluster.{request}
use kubelb_ce.Finalizers.{remove_finalizer, cleanup_finalizer}

abbrev pub ingress_name : LoadBalancer → Text
ingress_name lb = lb.meta.name ++ txt "-ingress"

abbrev pub http_route_name : LoadBalancer → Text
http_route_name lb = lb.meta.name ++ txt "-httproute"

-- The load balancer without the finalizers of this controller.
unfoldable pub without_finalizers : LoadBalancer → LoadBalancer
without_finalizers lb =
    with_finalizers
      (remove_finalizer hostname_cleanup_finalizer (
        remove_finalizer envoy_proxy_cleanup_finalizer
          (remove_finalizer cleanup_finalizer lb.meta.finalizers)))
      lb

module _ {S : Type 0} (client : Client S) (topology : Topology) where
  -- `DeallocatePortsForLoadBalancer` on the allocator.
  unfoldable pub release_ports : LoadBalancer → Action S Unit
  release_ports lb w =
      (Result.ok tt, record w { ports = deallocate_ports_for_load_balancer w.ports lb })

  unfoldable pub cleanup_hostname_resources : LoadBalancer → Text → Action S Unit
  cleanup_hostname_resources lb namespace =
      delete client Kind.ingress (request (ingress_name lb) namespace)
      >> delete client Kind.http_route (request (http_route_name lb) namespace)

  -- The resources of the hostname, for a load balancer that has any.
  unfoldable pub cleanup_hostname : LoadBalancer → Text → Action S Unit
  unfolding cleanup_hostname_resources
  cleanup_hostname lb namespace =
      if contains lb.meta.finalizers hostname_cleanup_finalizer
      then cleanup_hostname_resources lb namespace
      else pure tt

  unfoldable pub cleanup : LoadBalancer → Text → Action S Unit
  unfolding release_ports cleanup_hostname
  cleanup lb namespace = do
    release_ports lb
    cleanup_hostname lb namespace
    delete client Kind.service (request (service_name topology lb.meta) namespace)
    update client Kind.load_balancer (without_finalizers lb)
    pure tt
