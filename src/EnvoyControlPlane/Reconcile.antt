-- ===== src/EnvoyControlPlane/Reconcile.antt =====
-- `Reconcile`, `updateCache` and `ensureEnvoyProxy` of internal/controllers/kubelb/envoy_cp_controller.go.
use kubelb_ce.Base.{Bool, Option, none, some, List, [], ◌∷◌}
use kubelb_ce.Base.{text_eq, nat_eq, ◌==◌, if◌then◌else◌}
use kubelb_ce.Base.Text.{Text}
use kubelb_ce.Api.{EndpointAddress, LoadBalancer, Route, Config, PodTemplate, Workload}
use kubelb_ce.Cluster.{
  Kind, Client, Answer, Failure, Result, Action, pure, raise, request, ◌>>=◌, ◌>>◌,
}
use kubelb_ce.Events.{Request}
use kubelb_ce.LoadBalancerController.{Setup, envoy_snapshot_and_app_name}
use kubelb_ce.LoadBalancerController.Reconcile.{allocate, allocated, get_config}
use kubelb_ce.Ports.Mapper.{allocate_ports_for_routes}
use kubelb_ce.Snapshot.Routes.{Snapshot, map_snapshot}
use kubelb_ce.Snapshot.Xds.{Cluster, Listener}
use kubelb_ce.EnvoyControlPlane.{
  SnapshotCache, TemplateEqual, pod_template_spec_needs_update, proxy_name, new_workload,
  desired_workload, set_result, proxy_namespace, find_workload, create_workload, update_workload,
  cleanup_envoy_proxy, list_load_balancers_and_routes, addresses_of,
}

-- The addresses objects that the mapping reads, from the server as it stands.
unfoldable pub addresses_at :
    {S : Type 0} → Client S → S → Text → Text → Option (List EndpointAddress)
addresses_at client s namespace name =
    addresses_of (client.get Kind.addresses (request name namespace) s).0

module _ {S : Type 0} (client : Client S) (cache : SnapshotCache S) (setup : Setup)
    (same : TemplateEqual) (template : Config → Text → Text → Text → PodTemplate)
    (hash : List Cluster → List Listener → Option Text) (consistent : Snapshot → Bool) where
  unfoldable pub save_workload :
      Config → Text → Text → PodTemplate → Answer Workload → Action S Unit
  unfolding create_workload update_workload
  save_workload config app_name namespace desired (Answer.object workload) =
      if pod_template_spec_needs_update same workload.template desired
      then update_workload client config.use_daemonset
          (desired_workload config app_name desired workload)
      else pure tt
  save_workload config app_name namespace desired (Answer.failure Failure.not_found) =
      create_workload client config.use_daemonset
        (desired_workload config app_name desired (new_workload app_name namespace))
  save_workload config app_name namespace desired (Answer.failure Failure.conflict) =
      raise Failure.conflict
  save_workload config app_name namespace desired (Answer.failure Failure.failed) =
      raise Failure.failed

  unfoldable pub ensure_envoy_proxy : Config → Text → Text → Text → Action S Unit
  unfolding find_workload save_workload
  ensure_envoy_proxy config namespace app_name snapshot_name =
      find_workload client config.use_daemonset (request (proxy_name app_name) namespace)
      >>= save_workload config app_name namespace (template config namespace app_name snapshot_name)

  unfoldable pub set_snapshot : Text → Snapshot → Action S Unit
  set_snapshot name snapshot w =
      let (failure, s) = cache.set name snapshot w.server in
      (set_result failure, record w { server = s })

  -- The snapshot that the cache has decides: none, the desired version, or another one.
  unfoldable pub replace_snapshot : Text → Snapshot → Option Snapshot → Action S Unit
  unfolding set_snapshot
  replace_snapshot name desired none = set_snapshot name desired
  replace_snapshot name desired (some current) =
      if current.version == desired.version
      then pure tt
      else if consistent desired
      then set_snapshot name desired
      else raise Failure.failed

  -- A mapping that fails leaves the cache alone.
  unfoldable pub cache_mapped : Text → Option Snapshot → Action S Unit
  unfolding replace_snapshot
  cache_mapped name none w = (Result.err Failure.failed, w)
  cache_mapped name (some desired) w = replace_snapshot name desired (cache.current name w.server) w

  unfoldable pub update_cache : Text → List LoadBalancer → List Route → Action S Unit
  unfolding cache_mapped
  update_cache name lbs routes w =
      cache_mapped name (map_snapshot hash (addresses_at client w.server) lbs routes (some w.ports))
        w

  unfoldable pub allocate_routes : List Route → Action S Unit
  unfolding allocated
  allocate_routes routes w = allocated client (allocate_ports_for_routes w.ports routes w.draws) w

  unfoldable pub clear_snapshot : Text → Action S Unit
  clear_snapshot name w = (Result.ok tt, record w { server = cache.clear name w.server })

  -- With something to serve.
  unfoldable pub serve_all :
      Config → Text → Text → Text → List LoadBalancer → List Route → Action S Unit
  unfolding ensure_envoy_proxy allocate allocate_routes update_cache
  serve_all config namespace app_name snapshot_name lbs routes =
      ensure_envoy_proxy config namespace app_name snapshot_name
      >> (allocate client lbs >> (allocate_routes routes >> update_cache snapshot_name lbs routes))

  unfoldable pub serve_nothing : Config → Text → Text → Text → Action S Unit
  unfolding clear_snapshot cleanup_envoy_proxy
  serve_nothing config namespace app_name snapshot_name =
      clear_snapshot snapshot_name >> cleanup_envoy_proxy client config app_name namespace

  unfoldable pub serve_listed : Config → Text → List LoadBalancer × List Route → Action S Unit
  unfolding serve_all serve_nothing
  serve_listed config namespace ([], []) =
      let (snapshot_name, app_name) = envoy_snapshot_and_app_name setup.topology namespace in
      serve_nothing config (proxy_namespace setup namespace) app_name snapshot_name
  serve_listed config namespace (lb ∷ lbs, routes) =
      let (snapshot_name, app_name) = envoy_snapshot_and_app_name setup.topology namespace in
      serve_all config (proxy_namespace setup namespace) app_name snapshot_name (lb ∷ lbs) routes
  serve_listed config namespace ([], route ∷ routes) =
      let (snapshot_name, app_name) = envoy_snapshot_and_app_name setup.topology namespace in
      serve_all config (proxy_namespace setup namespace) app_name snapshot_name [] (route ∷ routes)

  unfoldable pub reconcile_namespace : Text → Config → Action S Unit
  unfolding list_load_balancers_and_routes serve_listed
  reconcile_namespace namespace config =
      list_load_balancers_and_routes client setup.topology namespace
      >>= serve_listed config namespace

  unfoldable pub reconcile : Request → Action S Unit
  unfolding get_config reconcile_namespace
  reconcile req = get_config client setup.namespace >>= reconcile_namespace req.namespace
