-- ===== src/EnvoyControlPlane/Ports.antt =====
-- The port allocator over a run of the Envoy control plane
-- (internal/controllers/kubelb/envoy_cp_controller.go).
use kubelb_ce.Base.{refl, arith, Bool, Option, List, [], ◌∷◌}
use kubelb_ce.Base.Text.{Text}
use kubelb_ce.Api.{LoadBalancer, Route, Config, PodTemplate}
use kubelb_ce.Cluster.{Client, ◌>>◌}
use kubelb_ce.Cluster.Keeps.{Holds, >>=-Holds}
use kubelb_ce.Events.{Request}
use kubelb_ce.LoadBalancerController.{Topology, Setup, envoy_snapshot_and_app_name}
use kubelb_ce.LoadBalancerController.Reconcile.{allocate, get_config}
use kubelb_ce.LoadBalancerController.Reconcile.Allocation.{
  KeepsPorts, IsSound, kept, allocated-IsSound, allocate-IsSound,
}
use kubelb_ce.Ports.Mapper.{allocate_ports_for_routes, route_jobs}
use kubelb_ce.Snapshot.Routes.{Snapshot}
use kubelb_ce.Snapshot.Xds.{Cluster, Listener}
use kubelb_ce.EnvoyControlPlane.{
  SnapshotCache, TemplateEqual, proxy_namespace, list_load_balancers_and_routes,
}
use kubelb_ce.EnvoyControlPlane.Reconcile.{
  ensure_envoy_proxy, update_cache, cache_mapped, allocate_routes, serve_all, serve_nothing,
  serve_listed, reconcile_namespace, reconcile,
}

module _ {S : Type 0} (client : Client S) (cache : SnapshotCache S) (setup : Setup)
    (same : TemplateEqual) (template : Config → Text → Text → Text → PodTemplate)
    (hash : List Cluster → List Listener → Option Text) (consistent : Snapshot → Bool) where
  ports-ensure_envoy_proxy :
      (config : Config) (namespace app_name snapshot_name : Text)
      → KeepsPorts (
          ensure_envoy_proxy client cache setup same template hash consistent config namespace
            app_name snapshot_name)
  unfolding ensure_envoy_proxy
  ports-ensure_envoy_proxy config namespace app_name snapshot_name w = ground arith

  ports-cache_mapped :
      (name : Text) (desired : Option Snapshot)
      → KeepsPorts (cache_mapped client cache setup same template hash consistent name desired)
  unfolding cache_mapped
  ports-cache_mapped name desired w = ground arith

  allocate_routes-IsSound :
      (routes : List Route)
      → Holds IsSound (allocate_routes client cache setup same template hash consistent routes)
  unfolding allocate_routes allocate_ports_for_routes
  allocate_routes-IsSound routes w = allocated-IsSound client (route_jobs routes) w _ refl

  ports-update_cache :
      (name : Text) (lbs : List LoadBalancer) (routes : List Route)
      → KeepsPorts (update_cache client cache setup same template hash consistent name lbs routes)
  unfolding update_cache
  ports-update_cache name lbs routes w = ports-cache_mapped name _ w

  serve_all-IsSound :
      (config : Config) (namespace app_name snapshot_name : Text) (lbs : List LoadBalancer)
      (routes : List Route)
      → Holds IsSound (
          serve_all client cache setup same template hash consistent config namespace app_name
            snapshot_name lbs routes)
  unfolding serve_all
  serve_all-IsSound config namespace app_name snapshot_name lbs routes =
      let mapped =
        update_cache client cache setup same template hash consistent snapshot_name lbs routes in
      let routed = allocate_routes client cache setup same template hash consistent routes in
      >>=-Holds IsSound
        (ensure_envoy_proxy client cache setup same template hash consistent config namespace
          app_name snapshot_name)
        (λ _. allocate client lbs >> (routed >> mapped))
        (kept
          (ensure_envoy_proxy client cache setup same template hash consistent config namespace
            app_name snapshot_name)
          (ports-ensure_envoy_proxy config namespace app_name snapshot_name))
        (λ _.
          >>=-Holds IsSound (allocate client lbs) (λ _. routed >> mapped)
            (allocate-IsSound client lbs)
            (λ _.
              >>=-Holds IsSound routed (λ _. mapped) (allocate_routes-IsSound routes)
                (λ _. kept mapped (ports-update_cache snapshot_name lbs routes))))

  ports-serve_nothing :
      (config : Config) (namespace app_name snapshot_name : Text)
      → KeepsPorts (
          serve_nothing client cache setup same template hash consistent config namespace app_name
            snapshot_name)
  unfolding serve_nothing
  ports-serve_nothing config namespace app_name snapshot_name w = ground arith

  serve_listed-IsSound :
      (config : Config) (namespace : Text) (listed : List LoadBalancer × List Route)
      → Holds IsSound
          (serve_listed client cache setup same template hash consistent config namespace listed)
  unfolding serve_listed
  serve_listed-IsSound config namespace ([], []) =
      let (snapshot_name, app_name) = envoy_snapshot_and_app_name setup.topology namespace in
      kept
        (serve_nothing client cache setup same template hash consistent config
          (proxy_namespace setup namespace) app_name snapshot_name)
        (ports-serve_nothing config (proxy_namespace setup namespace) app_name snapshot_name)
  serve_listed-IsSound config namespace (lb ∷ lbs, routes) =
      serve_all-IsSound config _ _ _ (lb ∷ lbs) routes
  serve_listed-IsSound config namespace ([], route ∷ routes) =
      serve_all-IsSound config _ _ _ [] (route ∷ routes)

  ports-list_load_balancers_and_routes :
      (topology : Topology) (namespace : Text)
      → KeepsPorts (list_load_balancers_and_routes client topology namespace)
  unfolding list_load_balancers_and_routes
  ports-list_load_balancers_and_routes Topology.shared namespace w = ground arith
  ports-list_load_balancers_and_routes Topology.dedicated namespace w = refl
  ports-list_load_balancers_and_routes Topology.global namespace w = ground arith

  reconcile_namespace-IsSound :
      (namespace : Text) (config : Config)
      → Holds IsSound
          (reconcile_namespace client cache setup same template hash consistent namespace config)
  unfolding reconcile_namespace
  reconcile_namespace-IsSound namespace config =
      >>=-Holds IsSound (list_load_balancers_and_routes client setup.topology namespace)
        (serve_listed client cache setup same template hash consistent config namespace)
        (kept (list_load_balancers_and_routes client setup.topology namespace)
          (ports-list_load_balancers_and_routes setup.topology namespace))
        (serve_listed-IsSound config namespace)

  -- A run of the control plane keeps the invariant of the allocator.
  pub reconcile-IsSound :
      (req : Request)
      → Holds IsSound (reconcile client cache setup same template hash consistent req)
  unfolding reconcile get_config
  reconcile-IsSound req =
      >>=-Holds IsSound (get_config client setup.namespace)
        (reconcile_namespace client cache setup same template hash consistent req.namespace)
        (kept (get_config client setup.namespace) (λ w. ground arith))
        (reconcile_namespace-IsSound req.namespace)
