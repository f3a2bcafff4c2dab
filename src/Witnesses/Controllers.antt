-- ===== src/Witnesses/Controllers.antt =====
-- The controllers at concrete inputs, on a server that holds fixed objects.
use kubelb_ce.Base.{◌++◌, not, ◌≡◌, ◌⊎◌, refl, Bool, true, false, none, some, List, [], ◌∷◌}
use kubelb_ce.Base.{text_eq, nat_eq, ◌==◌, contains, if◌then◌else◌}
use kubelb_ce.Base.Dict
use kubelb_ce.Base.Dict.{Dict}
use kubelb_ce.Base.Text.{txt}
use kubelb_ce.Api.{
  ObjectMeta, ServicePort, Service, IngressPoint, LoadBalancer, LoadBalancerEndpoints,
  AnnotationSettings, Tenant, Config, TenantSpec, ConfigSpec,
}
use kubelb_ce.Cluster.{Kind, Client, World, Answer, Failure, Result, request, request_of}
use kubelb_ce.Cluster.Memory.{Objects, memory, once, once-IsRetry}
use kubelb_ce.Cluster.Records.{saved, saved_services, gone, finalizer_first}
use kubelb_ce.Events.{Event}
use kubelb_ce.LoadBalancerController.Hostname.{exposed_meta}
use kubelb_ce.Finalizers.{cleanup_finalizer}
use kubelb_ce.Ports.{new_port_allocator, lookup}
use kubelb_ce.Ports.Mapper.{job_keys, endpoint_jobs}
use kubelb_ce.LoadBalancerController.{
  Topology, Setup, DeepEqual, with_finalizers, resource_namespace, hostname_cleanup_finalizer,
}
use kubelb_ce.LoadBalancerController.Cleanup.{
  ingress_name, http_route_name, without_finalizers, cleanup,
}
use kubelb_ce.LoadBalancerController.Cleanup.Finalizers.{
  Saves, saved-cleanup, gone-cleanup, lookup-cleanup, IsFreed,
}
use kubelb_ce.LoadBalancerController.Services.{
  desired_service, updated_service, with_merged_annotations, service_needs_update, reconcile_found,
}
use kubelb_ce.LoadBalancerController.Services.Settled.{
  IsDeepEqual, Writes, saved-reconcile_found, service_needs_update_again,
}
use kubelb_ce.LoadBalancerController.Reconcile.{
  reconcile_enabled, reconcile_under, reconcile_marked,
}
use kubelb_ce.LoadBalancerController.Reconcile.Order.{
  reconcile_enabled-finalized, reconcile_marked_deleted, reconcile_under_disabled,
}
use kubelb_ce.LoadBalancerController.Requests.{
  enqueue_load_balancers, filter_services, enqueue_load_balancers-desired_service,
}
use kubelb_ce.Witnesses.{two_draws}
use kubelb_ce.Witnesses.Equality.{same_entries, same_entries_sound, same_entries_complete}

abbrev pub nothing_stored : Objects
nothing_stored = record { service = none; load_balancer = none; tenant = none; config = none }

abbrev pub client : Client Unit
client = memory nothing_stored

abbrev pub world : World Unit
world = record { server = tt; ports = new_port_allocator; draws = two_draws; writes = [] }

abbrev pub meta : ObjectMeta
meta = record {
  name = txt "web";
  namespace = txt "tenant-x";
  uid = txt "7";
  labels = none;
  annotations = some ((txt "a", txt "1") ∷ []);
  deletion_timestamp = none;
  finalizers = hostname_cleanup_finalizer ∷ [];
}

abbrev pub tcp : ServicePort
tcp = record {
  name = txt "http";
  protocol = txt "TCP";
  port = 80;
  target_port = 30080;
  node_port = 0;
}

abbrev pub web_service : Service
web_service = record {
  meta = meta;
  type = txt "LoadBalancer";
  ports = tcp ∷ [];
  selector = none;
  cluster_ip = [];
  class = none;
  ingress = [];
}

abbrev pub endpoint : LoadBalancerEndpoints
endpoint = record {
  name = [];
  addresses = [];
  addresses_reference = none;
  ports = record { name = txt "http"; port = 30080; protocol = txt "TCP" } ∷ [];
}

abbrev pub lb : LoadBalancer
lb = record {
  meta = meta;
  spec = record {
    endpoints = endpoint ∷ [];
    ports = record { name = txt "http"; protocol = txt "TCP"; port = 80 } ∷ [];
    hostname = [];
    type = txt "LoadBalancer";
  };
  status = record { ingress = []; service = record { ports = [] }; hostname = none };
}

abbrev pub setup : Setup
setup = record { namespace = txt "kubelb"; topology = Topology.shared }

-- The comparisons that the theorems ask something of compare; the others say that two things differ.
abbrev pub same : DeepEqual
same = record {
  dicts = same_entries;
  maps = λ a b. true;
  classes = λ a b. true;
  service_ports = λ a b. true;
  status_ports = λ a b. false;
  ingress_points = λ a b. false;
  hostnames = λ a b. false;
  statuses = λ a b. false;
  ingress_specs = λ a b. false;
  http_route_specs = λ a b. false;
}

same-IsDeepEqual : IsDeepEqual same
same-IsDeepEqual = record {
  sound = same_entries_sound;
  complete = same_entries_complete;
  maps = λ m. refl;
  classes = λ c. refl;
  ports = λ ps. refl;
}

abbrev pub no_settings : AnnotationSettings
no_settings = record {
  propagated_annotations = none;
  propagate_all_annotations = none;
  default_annotations = none;
}

abbrev pub set_owner : ObjectMeta → ObjectMeta → Answer ObjectMeta
set_owner owner m = Answer.object m

abbrev spec : Bool → TenantSpec
spec disable = record {
  annotation_settings = no_settings;
  load_balancer = record { class = none; disable = disable };
  ingress = record { class = none; disable = false };
  gateway_api = record { class = none; default_gateway = none; disable = false };
  dns = record {
    wildcard_domain = none;
    allow_explicit_hostnames = none;
    use_dns_annotations = none;
    use_certificate_annotations = none;
  };
  certificates = record { default_cluster_issuer = none };
}

abbrev config_spec : ConfigSpec
config_spec = record {
  annotation_settings = no_settings;
  load_balancer = record { class = none; disable = false };
  ingress = record { class = none; disable = false };
  gateway_api = record { class = none; default_gateway = none; disable = false };
  dns = record {
    wildcard_domain = [];
    allow_explicit_hostnames = false;
    use_dns_annotations = false;
    use_certificate_annotations = false;
  };
  certificates = record { default_cluster_issuer = none };
}

abbrev disabled : Tenant
disabled = record { meta = meta; spec = spec true }

abbrev pub config : Config
config = record {
  meta = meta;
  spec = config_spec;
  topology = txt "shared";
  use_daemonset = false;
  replicas = 3;
}

saved-cleanup_example :
    Saves client Topology.shared world lb cleanup_finalizer
      (cleanup client Topology.shared lb (txt "tenant-x") world)
saved-cleanup_example =
    saved-cleanup client Topology.shared lb (txt "tenant-x") world cleanup_finalizer

ended :
    (cleanup client setup.topology lb (resource_namespace setup lb.meta.namespace) world).0
    ≡ Result.ok tt
unfolding cleanup text_eq
ended = refl

gone-cleanup_example :
    gone
      (cleanup client setup.topology lb (resource_namespace setup lb.meta.namespace) world).1.writes
    ≡ (Kind.service, request (txt "envoy-" ++ lb.meta.name) lb.meta.namespace)
      ∷ (if contains lb.meta.finalizers hostname_cleanup_finalizer
          then (Kind.http_route, request_of (exposed_meta lb (http_route_name lb) none))
            ∷ (Kind.ingress, request_of (exposed_meta lb (ingress_name lb) none))
            ∷ gone world.writes
          else gone world.writes)
gone-cleanup_example = gone-cleanup client setup lb none none world refl ended

lookup-cleanup_example :
    lookup (cleanup client Topology.shared lb (txt "tenant-x") world).1.ports (txt "e") (txt "k")
    ≡ (if contains
          (job_keys (endpoint_jobs lb.meta.namespace lb.meta.name 0 lb.spec.endpoints))
          (txt "e")
        then none
        else lookup world.ports (txt "e") (txt "k"))
lookup-cleanup_example =
    lookup-cleanup client Topology.shared lb (txt "tenant-x") world (txt "e") (txt "k")

no_finalizer : contains lb.meta.finalizers cleanup_finalizer ≡ false
unfolding text_eq
no_finalizer = refl

reconcile_enabled-finalized_example :
    finalizer_first cleanup_finalizer
      (request_of lb.meta)
      (reconcile_enabled client setup same set_owner once lb
        (lb ∷ [])
        (spec false)
        config_spec
        (txt "tenant-x")
        (record world { writes = [] })).1.writes
    ≡ true
reconcile_enabled-finalized_example =
    reconcile_enabled-finalized client setup same set_owner once once-IsRetry lb (lb ∷ [])
      (spec false) config_spec (txt "tenant-x") world no_finalizer

reconcile_marked_deleted_example :
    let w' =
      (reconcile_marked client setup same set_owner once (some 5) lb (txt "tenant-x") [] world).1 in
    let fs = (without_finalizers lb).meta.finalizers in
    (saved_services w'.writes ≡ saved_services world.writes)
    × ((saved w'.writes ≡ saved world.writes)
        ⊎ (saved w'.writes ≡ with_finalizers fs lb ∷ saved world.writes))
    × IsFreed lb cleanup_finalizer fs
reconcile_marked_deleted_example =
    reconcile_marked_deleted client setup same set_owner once 5 lb (txt "tenant-x") [] world
      cleanup_finalizer

reconcile_under_disabled_example :
    let w' =
      (reconcile_under client setup same set_owner once lb []
        (txt "tenant-x")
        (disabled, config)
        world).1 in
    (saved_services w'.writes ≡ saved_services world.writes)
    × (contains lb.meta.finalizers cleanup_finalizer ≡ false → w' ≡ world)
reconcile_under_disabled_example =
    reconcile_under_disabled client setup same set_owner once lb [] (txt "tenant-x") disabled config
      world refl

abbrev wanted : List ServicePort → Service
wanted = desired_service lb (txt "envoy-web") (txt "tenant-x") (txt "tenant-x") none no_settings

saved-reconcile_found_example :
    Writes same same-IsDeepEqual lb wanted
      (Answer.failure Failure.not_found)
      world
      (reconcile_found client same lb wanted (Answer.failure Failure.not_found) world)
saved-reconcile_found_example =
    saved-reconcile_found same same-IsDeepEqual client lb wanted (Answer.failure Failure.not_found)
      world

service_needs_update_again_example :
    let written =
      updated_service same web_service (with_merged_annotations same web_service web_service) in
    service_needs_update same written (with_merged_annotations same written web_service) ≡ false
unfolding Dict.lookup
service_needs_update_again_example =
    service_needs_update_again same same-IsDeepEqual web_service web_service
      ((txt "a", txt "1") ∷ []) refl (refl, tt) (refl, tt)

web_named : (lb.meta.name == []) ≡ false
unfolding text_eq
web_named = refl

abbrev point : IngressPoint
point = record { ip = txt "203.0.113.7"; hostname = [] }

abbrev no_points_only : List IngressPoint → List IngressPoint → Bool
no_points_only [] [] = true
no_points_only _ _ = false

enqueue_load_balancers-desired_service_example :
    let made =
      desired_service lb
        (txt "envoy-web")
        (txt "tenant-x")
        (txt "tenant-x")
        none
        no_settings
        (tcp ∷ []) in
    let service : Service = record made { ingress = point ∷ [] } in
    (enqueue_load_balancers service.meta.labels ≡ request_of lb.meta ∷ [])
    × (filter_services no_points_only (Event.create service) ≡ true)
    × (filter_services no_points_only (Event.delete service) ≡ true)
    × (filter_services no_points_only (Event.update made service)
        ≡ not (no_points_only (point ∷ []) made.ingress))
enqueue_load_balancers-desired_service_example =
    enqueue_load_balancers-desired_service lb (txt "envoy-web") (txt "tenant-x") (txt "tenant-x")
      none no_settings (tcp ∷ []) (point ∷ [])
      (desired_service lb (txt "envoy-web") (txt "tenant-x") (txt "tenant-x") none no_settings
        (tcp ∷ []))
      no_points_only web_named
