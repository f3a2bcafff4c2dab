-- ===== src/LoadBalancerController/Reconcile.antt =====
-- `Reconcile` and `shouldReconcile` of internal/controllers/kubelb/loadbalancer_controller.go, and
-- `GetTenantAndConfig` of internal/controllers/kubelb/shared.go.
pub mod Allocation
pub mod Order
pub mod Steps
pub mod Ports
use kubelb_ce.Base.{ℕ, Bool, not, ◌&&◌, ◌||◌, Option, none, some, List, [], ◌∷◌, ◌++◌}
use kubelb_ce.Base.{text_eq, ◌==◌, contains, if◌then◌else◌}
use kubelb_ce.Base.Dict.{has_value}
use kubelb_ce.Base.Text.{Text, txt}
use kubelb_ce.Api.{
  AnnotationSettings, LoadBalancer, Service, Tenant, Config, TenantSpec, ConfigSpec,
}
use kubelb_ce.Annotations.{get_annotations}
use kubelb_ce.Cluster.{
  Kind, Client, World, Answer, Failure, Result, Action, pure, raise, ◌>>=◌, ◌>>◌, try_get, get,
  list, update,
}
use kubelb_ce.Events.{Request, should_reconcile_load_balancer}
use kubelb_ce.Hostnames.{should_configure_hostname}
use kubelb_ce.Ports.{PortAllocator}
use kubelb_ce.Ports.Mapper.{allocate_ports_for_load_balancers}
use kubelb_ce.LoadBalancerController.{
  Topology, Setup, DeepEqual, service_name, envoy_snapshot_and_app_name, resource_namespace,
  remove_tenant_prefix, with_finalizers, envoy_proxy_cleanup_finalizer, hostname_cleanup_finalizer,
}
use kubelb_ce.Cluster.{request}
use kubelb_ce.Finalizers.{remove_finalizer, add_finalizer, cleanup_finalizer}
use kubelb_ce.LoadBalancerController.Cleanup.{cleanup}
use kubelb_ce.LoadBalancerController.Configure.{configure_hostname}
use kubelb_ce.LoadBalancerController.Hostname.{SetOwner}
use kubelb_ce.LoadBalancerController.Services.{reconcile_service}
use kubelb_ce.LoadBalancerController.Status.{update_load_balancer_status}

abbrev pub default_config_resource_name : Text
default_config_resource_name = txt "default"

unfoldable pub has_cleanup_finalizer : LoadBalancer → Bool
has_cleanup_finalizer lb =
    contains lb.meta.finalizers envoy_proxy_cleanup_finalizer
    || (contains lb.meta.finalizers cleanup_finalizer
        || contains lb.meta.finalizers hostname_cleanup_finalizer)

-- The class of the tenant, or that of the configuration.
unfoldable pub class_name : TenantSpec → ConfigSpec → Option Text
class_name tenant config =
    if has_value tenant.load_balancer.class
    then tenant.load_balancer.class
    else config.load_balancer.class

-- The load balancer with the finalizer of this controller in place of the old one.
unfoldable pub finalized : LoadBalancer → LoadBalancer
finalized lb =
    with_finalizers
      (remove_finalizer envoy_proxy_cleanup_finalizer
        (add_finalizer cleanup_finalizer lb.meta.finalizers))
      lb

module _ {S : Type 0} (client : Client S) where
  unfoldable pub get_tenant : Text → Action S Tenant
  get_tenant tenant_name = get client Kind.tenant (request tenant_name [])

  unfoldable pub get_config : Text → Action S Config
  get_config namespace = get client Kind.config (request default_config_resource_name namespace)

  unfoldable pub get_tenant_and_config : Text → Text → Action S (Tenant × Config)
  unfolding get_tenant get_config
  get_tenant_and_config config_namespace tenant_name = do
    tenant ← get_tenant tenant_name
    config ← get_config config_namespace
    pure (tenant, config)

  -- The load balancers whose ports are allocated together.
  unfoldable pub load_balancers_of : Topology → Text → Action S (List LoadBalancer)
  load_balancers_of Topology.shared namespace = list client Kind.load_balancer (some namespace)
  load_balancers_of Topology.dedicated namespace = pure []
  load_balancers_of Topology.global namespace = list client Kind.load_balancer none

  unfoldable pub ensure_finalizer : LoadBalancer → Action S LoadBalancer
  ensure_finalizer lb =
      if contains lb.meta.finalizers cleanup_finalizer
      then pure lb
      else update client Kind.load_balancer (finalized lb)

  unfoldable pub allocated : Option (PortAllocator × List ℕ) → Action S Unit
  allocated none w = (Result.halt, w)
  allocated (some (pa, draws)) w = (Result.ok tt, record w { ports = pa; draws = draws })

  -- `AllocatePortsForLoadBalancers`, on the numbers that the world has left. It returns no error.
  unfoldable pub allocate : List LoadBalancer → Action S Unit
  unfolding allocated
  allocate lbs w = allocated (allocate_ports_for_load_balancers w.ports lbs w.draws) w

module _ {S : Type 0} (client : Client S) (setup : Setup) (same : DeepEqual) (set_owner : SetOwner)
    (retry_on_conflict : Action S Unit → Action S Unit) where
  unfoldable pub hostname_step :
      LoadBalancer
      → Text
      → TenantSpec
      → ConfigSpec
      → AnnotationSettings
      → Action S (Text × LoadBalancer)
  unfolding configure_hostname
  hostname_step lb svc_name tenant config settings =
      if should_configure_hostname lb.meta.annotations lb.spec.hostname tenant config
      then configure_hostname client same set_owner lb svc_name tenant config settings
      else pure ([], lb)

  unfoldable pub report : Service → Text × LoadBalancer → Action S Unit
  report service (hostname, lb) =
      update_load_balancer_status client same retry_on_conflict lb service hostname

  -- With the service as it is now.
  unfoldable pub serve_service :
      Text → TenantSpec → ConfigSpec → LoadBalancer → Service → Action S Unit
  unfolding hostname_step report
  serve_service svc_name tenant config lb service =
      hostname_step lb svc_name tenant config (get_annotations tenant config) >>= report service

  unfoldable pub serve_found : Text → Text → TenantSpec → ConfigSpec → LoadBalancer → Action S Unit
  unfolding serve_service
  serve_found svc_name namespace tenant config lb =
      get client Kind.service (request svc_name (resource_namespace setup namespace))
      >>= serve_service svc_name tenant config lb

  -- From the service on.
  unfoldable pub serve : LoadBalancer → TenantSpec → ConfigSpec → Text → Action S Unit
  unfolding reconcile_service serve_found
  serve lb tenant config namespace =
      reconcile_service client same lb (service_name setup.topology lb.meta)
        (envoy_snapshot_and_app_name setup.topology namespace).1
        (resource_namespace setup namespace) (class_name tenant config)
        (get_annotations tenant config)
      >>= serve_found (service_name setup.topology lb.meta) namespace tenant config

  -- From the allocation on, with the load balancer as the API server has it.
  unfoldable pub allocate_and_serve :
      List LoadBalancer → TenantSpec → ConfigSpec → Text → LoadBalancer → Action S Unit
  unfolding allocate serve
  allocate_and_serve lbs tenant config namespace lb =
      allocate client lbs >> serve lb tenant config namespace

  unfoldable pub reconcile_enabled :
      LoadBalancer → List LoadBalancer → TenantSpec → ConfigSpec → Text → Action S Unit
  unfolding ensure_finalizer allocate_and_serve
  reconcile_enabled lb lbs tenant config namespace =
      ensure_finalizer client lb >>= allocate_and_serve lbs tenant config namespace

  -- The settings decide whether to go on, to clean up, or to leave the load balancer alone.
  unfoldable pub reconcile_under :
      LoadBalancer → List LoadBalancer → Text → Tenant × Config → Action S Unit
  unfolding cleanup reconcile_enabled
  reconcile_under lb lbs namespace (tenant, config) =
      let (go_on, disabled) = should_reconcile_load_balancer tenant.spec config.spec in
      if contains lb.meta.finalizers cleanup_finalizer && disabled
      then cleanup client setup.topology lb (resource_namespace setup namespace)
      else if not go_on
      then pure tt
      else reconcile_enabled lb lbs tenant.spec config.spec namespace

  -- The load balancer is not marked for deletion.
  unfoldable pub reconcile_live : LoadBalancer → Text → List LoadBalancer → Action S Unit
  unfolding get_tenant_and_config reconcile_under
  reconcile_live lb namespace lbs =
      get_tenant_and_config client setup.namespace (remove_tenant_prefix lb.meta.namespace)
      >>= reconcile_under lb lbs namespace

  unfoldable pub reconcile_deleted : LoadBalancer → Text → Action S Unit
  unfolding cleanup
  reconcile_deleted lb namespace =
      if has_cleanup_finalizer lb
      then cleanup client setup.topology lb (resource_namespace setup namespace)
      else pure tt

  -- By the deletion timestamp.
  unfoldable pub reconcile_marked :
      Option ℕ → LoadBalancer → Text → List LoadBalancer → Action S Unit
  unfolding reconcile_live reconcile_deleted
  reconcile_marked (some time) lb namespace lbs = reconcile_deleted lb namespace
  reconcile_marked none lb namespace lbs = reconcile_live lb namespace lbs

  unfoldable pub reconcile_listed : LoadBalancer → Text → List LoadBalancer → Action S Unit
  unfolding reconcile_marked
  reconcile_listed lb namespace lbs = reconcile_marked lb.meta.deletion_timestamp lb namespace lbs

  -- A load balancer without endpoints is invalid, and left alone.
  unfoldable pub reconcile_load_balancer : LoadBalancer → Text → Action S Unit
  unfolding load_balancers_of reconcile_listed
  reconcile_load_balancer lb namespace = elim lb.spec.endpoints [
    | [] ↦ pure tt
    | _ ∷ _ ↦ load_balancers_of client setup.topology namespace >>= reconcile_listed lb namespace
  ]

  -- A failed read is logged, and no error.
  unfoldable pub reconcile_answer : Request → Answer LoadBalancer → Action S Unit
  unfolding reconcile_load_balancer
  reconcile_answer req (Answer.object lb) = reconcile_load_balancer lb req.namespace
  reconcile_answer req (Answer.failure f) = pure tt

  unfoldable pub reconcile : Request → Action S Unit
  unfolding reconcile_answer
  reconcile req = try_get client Kind.load_balancer req >>= reconcile_answer req
