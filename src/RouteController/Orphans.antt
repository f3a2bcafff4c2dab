-- ===== src/RouteController/Orphans.antt =====
-- Removing the services of a route: `cleanup` and `cleanupOrphanedServices` of
-- internal/controllers/kubelb/route_controller.go.
use kubelb_ce.Base.Lists.{any}
use kubelb_ce.Base.{Bool, none, some, ◌≡◌, refl, arith, not, ◌&&◌, true, false, List, [], ◌∷◌}
use kubelb_ce.Base.{text_eq, ◌==◌, contains, if◌then◌else◌}
use kubelb_ce.Base.Dict
use kubelb_ce.Base.Dict.{Dict}
use kubelb_ce.Base.Text.{Text}
use kubelb_ce.Api.{Service, Route, RouteServiceStatus}
use kubelb_ce.Cluster.{Kind, Client, World, Result, request, delete}
use kubelb_ce.Cluster.Records.{gone, saved_routes}
use kubelb_ce.Events.{Request}
use kubelb_ce.LoadBalancerController.{Topology, Setup}
use kubelb_ce.Finalizers.{cleanup_finalizer}
use kubelb_ce.Keys.{route_endpoint_key}
use kubelb_ce.Labels.{original_route_name}
use kubelb_ce.Ports.{lookup}
use kubelb_ce.Ports.Remove.{lookup-deallocate_endpoints}
use kubelb_ce.RouteController.{
  services_or_empty, namespace_of, orphan_key, released_route, release_endpoint, remove_orphans,
}

-- The namespace from which the service of a record is deleted: that of the route, but for a record of
-- the controller's own namespace under the global topology.
abbrev pub place : Topology → Text → Route → RouteServiceStatus → Text
place Topology.shared own route value = route.meta.namespace
place Topology.dedicated own route value = route.meta.namespace
place Topology.global own route value = if value.namespace == own then own else route.meta.namespace

-- The services of the status, in the order of their deletion, the last one first.
abbrev pub deletions :
    Setup → Route → Dict Text RouteServiceStatus → List (Kind × Request) → List (Kind × Request)
deletions setup route [] done = done
deletions setup route ((key, value) ∷ services) done =
    let namespace = place setup.topology setup.namespace route value in
    deletions setup route services ((Kind.service, request value.generated_name namespace) ∷ done)

-- The endpoints of the route that have the generated names of the records.
abbrev pub orphan_keys : Route → Dict Text RouteServiceStatus → List Text
orphan_keys route [] = []
orphan_keys route ((key, value) ∷ services) =
    route_endpoint_key route.meta.namespace value.namespace value.generated_name
      (original_route_name route)
    ∷ orphan_keys route services

-- The endpoint key of a service of the route's source.
abbrev pub names_endpoint : Text → Route → Bool
names_endpoint e route = elim route.spec.kubernetes [
  | none ↦ false
  | some source ↦
      any
        (λ (svc : Service).
          e
          == route_endpoint_key route.meta.namespace svc.meta.namespace svc.meta.name
              (original_route_name route))
        source.services
]

module _ {S : Type 0} (client : Client S) (setup : Setup) where
  abbrev Deletes : Route → Dict Text RouteServiceStatus → World S → Result Unit × World S → Type 0
  Deletes route services w (Result.ok _, w') =
      (gone w'.writes ≡ deletions setup route services (gone w.writes))
      × (saved_routes w'.writes ≡ saved_routes w.writes)
      × (w'.ports ≡ w.ports)
  Deletes route services w (_, w') =
      (saved_routes w'.writes ≡ saved_routes w.writes) × (w'.ports ≡ w.ports)

  -- What a cleanup deletes, saves and gives back.
  abbrev pub Cleans : Route → Text → Text → Text → World S → Result Unit × World S → Type 0
  Cleans route f e k w (Result.ok _, w') =
      let fs = (released_route route).meta.finalizers in
      let freed : Route = record route { meta = record route.meta { finalizers = fs } } in
      (gone w'.writes
        ≡ deletions setup route (services_or_empty route.status.services) (gone w.writes))
      × (saved_routes w'.writes ≡ freed ∷ saved_routes w.writes)
      × (contains fs f ≡ (contains route.meta.finalizers f && not (f == cleanup_finalizer)))
      × (lookup w'.ports e k ≡ (if names_endpoint e route then none else lookup w.ports e k))
  Cleans route f e k w (_, w') = saved_routes w'.writes ≡ saved_routes w.writes

  -- Removing orphaned services leaves the ports of every endpoint as they were, but for the
  -- endpoints of the route whose keys are made with the generated name of a recorded service in
  -- place of its name.
  pub lookup-remove_orphans :
      (route : Route) (desired : List Text) (services left : Dict Text RouteServiceStatus)
      (w : World S) (e k : Text)
      → contains (orphan_keys route services) e ≡ false
      → lookup (remove_orphans client setup route desired services left w).1.ports e k
        ≡ lookup w.ports e k
  unfolding remove_orphans release_endpoint orphan_key
  lookup-remove_orphans route desired [] left w e k h = refl
  lookup-remove_orphans route desired ((key, value) ∷ services) left w e k h =
      let w' =
        (release_endpoint client setup (orphan_key route value)
          (delete client Kind.service
            (request value.generated_name (namespace_of setup route value)) w).1).1 in
      ground (
        arith,
        lookup-remove_orphans route desired services left w e k (ground arith),
        lookup-remove_orphans route desired services (Dict.erase key left) w' e k (ground arith),
        lookup-deallocate_endpoints w.ports (orphan_key route value ∷ []) e k,
      )

  abbrev pub Keeps :
      Text → Dict Text RouteServiceStatus → Result (Dict Text RouteServiceStatus) → Type 0
  Keeps k left (Result.ok left') = Dict.lookup k left' ≡ Dict.lookup k left
  Keeps k left _ = Unit

  -- When the removal of orphaned services ends well, the status still records every service that
  -- the route names, as before.
  pub remove_orphans-Keeps :
      (route : Route) (desired : List Text) (services left : Dict Text RouteServiceStatus)
      (w : World S) (k : Text)
      → contains desired k ≡ true
      → Keeps k left (remove_orphans client setup route desired services left w).0
  unfolding remove_orphans release_endpoint
  remove_orphans-Keeps route desired [] left w k h = refl
  remove_orphans-Keeps route desired ((key, value) ∷ services) left w k h =
      let w' =
        (release_endpoint client setup (orphan_key route value)
          (delete client Kind.service
            (request value.generated_name (namespace_of setup route value)) w).1).1 in
      ground (
        arith,
        remove_orphans-Keeps route desired services left w k h,
        remove_orphans-Keeps route desired services (Dict.erase key left) w' k h,
        Dict.lookup-erase k key left,
      )
