-- ===== src/LoadBalancerController/Configure.antt =====
-- `configureHostname` of internal/controllers/kubelb/loadbalancer_controller.go.
use kubelb_ce.Base.{Bool, not, ◌&&◌, ◌||◌, Option, none, some, [], false}
use kubelb_ce.Base.{text_eq, ◌==◌, contains, if◌then◌else◌}
use kubelb_ce.Base.Dict.{has_value}
use kubelb_ce.Base.Text.{Text}
use kubelb_ce.Api.{AnnotationSettings, HostnameStatus, LoadBalancer, TenantSpec, ConfigSpec}
use kubelb_ce.Cluster.{Kind, Client, Action, pure, ◌>>=◌, ◌>>◌, update, update_status, now, random}
use kubelb_ce.Events.{non_empty_value}
use kubelb_ce.Hostnames.{generate_hostname}
use kubelb_ce.LoadBalancerController.{DeepEqual, hostname_cleanup_finalizer, with_finalizers}
use kubelb_ce.Finalizers.{add_finalizer}
use kubelb_ce.LoadBalancerController.Hostname.{
  SetOwner, create_ingress_for_hostname, create_http_route_for_hostname,
}

abbrev pub hostname_of : Option HostnameStatus → Option Text
hostname_of none = none
hostname_of (some h) = some h.hostname

-- The hostname that the status has, if it is not empty.
unfoldable pub status_hostname : LoadBalancer → Option Text
status_hostname lb = non_empty_value (hostname_of lb.status.hostname)

unfoldable pub with_hostname : Text → LoadBalancer → LoadBalancer
with_hostname hostname lb =
    let status : HostnameStatus = record {
      hostname = hostname;
      tls_enabled = false;
      dns_record_created = false;
    } in
    record lb { status = record lb.status { hostname = some status } }

-- Gateway API is used if neither disables it and one of the two has a class.
unfoldable pub use_gateway_api : TenantSpec → ConfigSpec → Bool
use_gateway_api tenant config =
    not tenant.gateway_api.disable
    && (not config.gateway_api.disable
        && (has_value tenant.gateway_api.class || has_value config.gateway_api.class))

module _ {S : Type 0} (client : Client S) (same : DeepEqual) (set_owner : SetOwner) where
  unfoldable pub new_hostname : LoadBalancer → TenantSpec → ConfigSpec → Action S Text
  new_hostname lb tenant config =
      if not (lb.spec.hostname == [])
      then pure lb.spec.hostname
      else random client >>= λ bytes.
          now client >>= λ time. pure (generate_hostname bytes time tenant.dns config.dns)

  -- A new hostname goes into the status, unless it is the one there.
  unfoldable pub persist_hostname : LoadBalancer → Text → Action S LoadBalancer
  persist_hostname lb hostname =
      let named = with_hostname hostname lb in
      elim (hostname_of lb.status.hostname) [
        | none ↦ update_status client Kind.load_balancer named
        | some existing ↦
            if not (existing == hostname)
            then update_status client Kind.load_balancer named
            else pure named
      ]

  unfoldable pub add_hostname_finalizer : LoadBalancer → Action S LoadBalancer
  add_hostname_finalizer lb =
      if contains lb.meta.finalizers hostname_cleanup_finalizer
      then pure lb
      else update client Kind.load_balancer
          (with_finalizers (add_finalizer hostname_cleanup_finalizer lb.meta.finalizers) lb)

  unfoldable pub expose_hostname :
      LoadBalancer → Text → Text → TenantSpec → ConfigSpec → AnnotationSettings → Action S Unit
  unfolding create_ingress_for_hostname create_http_route_for_hostname
  expose_hostname lb svc_name hostname tenant config settings =
      if use_gateway_api tenant config
      then create_http_route_for_hostname client same set_owner lb svc_name hostname tenant config
          settings
      else create_ingress_for_hostname client same set_owner lb svc_name hostname tenant config
          settings

  -- From the hostname on: the finalizer first, then the route or the ingress.
  unfoldable pub expose_load_balancer :
      LoadBalancer
      → Text
      → Text
      → TenantSpec
      → ConfigSpec
      → AnnotationSettings
      → Action S (Text × LoadBalancer)
  unfolding add_hostname_finalizer expose_hostname
  expose_load_balancer lb svc_name hostname tenant config settings =
      add_hostname_finalizer lb >>= λ finalized.
      expose_hostname finalized svc_name hostname tenant config settings
      >> pure (hostname, finalized)

  -- The hostname, empty where none can be made, and the load balancer as the last write left it.
  unfoldable pub configure_hostname :
      LoadBalancer
      → Text
      → TenantSpec
      → ConfigSpec
      → AnnotationSettings
      → Action S (Text × LoadBalancer)
  unfolding new_hostname persist_hostname expose_load_balancer
  configure_hostname lb svc_name tenant config settings = elim (status_hostname lb) [
    | some hostname ↦ expose_load_balancer lb svc_name hostname tenant config settings
    | none ↦ new_hostname lb tenant config >>= λ hostname.
        (if hostname == []
          then pure ([], lb)
          else persist_hostname lb hostname >>= λ named.
              expose_load_balancer named svc_name hostname tenant config settings)
  ]
