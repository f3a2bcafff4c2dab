-- ===== src/RouteController/Ports.antt =====
-- The port allocator over a run on a route (internal/controllers/kubelb/route_controller.go).
use kubelb_ce.Base.{refl, arith, ◌&&◌, ◌||◌, Option, none, some, List, [], ◌∷◌}
use kubelb_ce.Base.{text_eq, contains, Option-cases, inl, inr}
use kubelb_ce.Base.Dict
use kubelb_ce.Base.Dict.{Dict}
use kubelb_ce.Base.Text.{Text}
use kubelb_ce.Api.{
  AnnotationSettings, Service, Route, RouteStatus, RouteServiceStatus, KubernetesSource,
}
use kubelb_ce.Cluster.{Kind, Client, Action, request, delete, update, pure, or_halt, ◌>>=◌, ◌>>◌}
use kubelb_ce.Cluster.Keeps.{>>=-Keeps, Holds, >>=-Holds, if-Holds, IsRetry, retry-Keeps}
use kubelb_ce.LoadBalancerController.{Setup}
use kubelb_ce.LoadBalancerController.Reconcile.Allocation.{
  allocation, KeepsPorts, IsSound, kept, allocated-IsSound,
}
use kubelb_ce.Ports.Mapper.{allocate_ports_for_routes, route_jobs, deallocate_ports_for_route}
use kubelb_ce.Ports.Remove.{deallocate_endpoints-IsWellFormed}
use kubelb_ce.RouteController.{
  namespace_of, is_bridged, has_partner, orphan_key, desired_keys, released_route,
  update_service_status, services_or_empty, with_services, delete_services, release_route_ports,
  cleanup_route, release_endpoint, remove_orphans, cleanup_recorded, cleanup_orphaned_services,
}
use kubelb_ce.RouteController.Apply.{
  RouteEqual, all_services_for, apply_service, apply_services, write_route_status, record_services,
  apply_and_record, allocate_route, apply_route, allocate_and_apply, manage_source, manage_any,
  manage_services,
}

module _ {S : Type 0} (client : Client S) (setup : Setup) where
  deletion-IsSound :
      (key : Text) (namespace : Text)
      → Holds IsSound (delete client Kind.service (request key namespace))
  deletion-IsSound key namespace w s = s

  release_endpoint-IsSound : (key : Text) → Holds IsSound (release_endpoint client setup key)
  unfolding release_endpoint
  release_endpoint-IsSound key w (good, drawn) =
      (deallocate_endpoints-IsWellFormed w.ports (key ∷ []) good, drawn)

  release_route_ports-IsSound :
      (route : Route) → Holds IsSound (release_route_ports client setup route)
  unfolding release_route_ports deallocate_ports_for_route
  release_route_ports-IsSound route w (good, drawn) = elim (Option-cases route.spec.kubernetes) [
    | inl none_there ↦ rw none_there (good, drawn)
    | inr (source, there) ↦ rw there (deallocate_endpoints-IsWellFormed w.ports _ good, drawn)
  ]

  delete_services-IsSound :
      (route : Route) (services : Dict Text RouteServiceStatus)
      → Holds IsSound (delete_services client setup route services)
  unfolding delete_services
  delete_services-IsSound route [] w s = s
  delete_services-IsSound route ((key, value) ∷ services) w s =
      >>=-Holds IsSound
        (delete client Kind.service (request value.generated_name (namespace_of setup route value)))
        (λ _. delete_services client setup route services) (λ v good. good)
        (λ _. delete_services-IsSound route services) w s

  -- A cleanup of a route keeps the invariant of the allocator.
  pub cleanup_route-IsSound : (route : Route) → Holds IsSound (cleanup_route client setup route)
  unfolding cleanup_route
  cleanup_route-IsSound route =
      let released = release_route_ports client setup route in
      let saved : Action S Unit = update client Kind.route (released_route route) >> pure tt in
      >>=-Holds IsSound
        (delete_services client setup route (services_or_empty route.status.services))
        (λ _. released >> saved)
        (delete_services-IsSound route (services_or_empty route.status.services))
        (λ _.
          >>=-Holds IsSound released (λ _. saved) (release_route_ports-IsSound route)
            (λ _ w s. ground (arith, s)))

  remove_orphans-IsSound :
      (route : Route) (desired : List Text) (services left : Dict Text RouteServiceStatus)
      → Holds IsSound (remove_orphans client setup route desired services left)
  unfolding remove_orphans
  remove_orphans-IsSound route desired [] left w s = s
  remove_orphans-IsSound route desired ((key, value) ∷ services) left w s =
      let deleted =
        delete client Kind.service
          (request value.generated_name (namespace_of setup route value)) in
      let released = release_endpoint client setup (orphan_key route value) in
      let rest = remove_orphans client setup route desired services (Dict.erase key left) in
      if-Holds IsSound (contains desired key || (is_bridged setup value && has_partner value left))
        (remove_orphans client setup route desired services left) (deleted >> (released >> rest))
        (remove_orphans-IsSound route desired services left)
        (>>=-Holds IsSound deleted (λ _. released >> rest) (λ v good. good)
          (λ _.
            >>=-Holds IsSound released (λ _. rest)
              (release_endpoint-IsSound (orphan_key route value))
              (λ _. remove_orphans-IsSound route desired services (Dict.erase key left))))
        w s

  cleanup_recorded-IsSound :
      (route : Route) (source : KubernetesSource) (recorded : Option (Dict Text RouteServiceStatus))
      → Holds IsSound (cleanup_recorded client setup route source recorded)
  unfolding cleanup_recorded
  cleanup_recorded-IsSound route source none w s = s
  cleanup_recorded-IsSound route source (some services) w s =
      >>=-Holds IsSound
        (remove_orphans client setup route (desired_keys source.services) services services)
        (λ left. pure (with_services (some left) route))
        (remove_orphans-IsSound route (desired_keys source.services) services services)
        (λ left v good. good) w s

module _ {S : Type 0} (client : Client S) (setup : Setup) (same : RouteEqual)
    (retry : Action S Unit → Action S Unit) (r : IsRetry retry) where
  ports-apply_service : (svc : Service) → KeepsPorts (apply_service client setup same svc)
  unfolding apply_service
  ports-apply_service svc w = ground arith

  ports-apply_services :
      (svcs : List Service) (recorded : Option (Dict Text RouteServiceStatus))
      → KeepsPorts (apply_services client setup same svcs recorded)
  unfolding apply_services
  ports-apply_services [] recorded w = refl
  ports-apply_services (svc ∷ svcs) recorded w =
      >>=-Keeps allocation (apply_service client setup same svc)
        (λ made. apply_services client setup same svcs (update_service_status recorded made))
        (ports-apply_service svc)
        (λ made. ports-apply_services svcs (update_service_status recorded made)) w

  ports-write_route_status :
      (route : Route) (status : RouteStatus)
      → KeepsPorts (write_route_status client setup same route status)
  unfolding write_route_status
  ports-write_route_status route status w = ground arith

  ports-apply_and_record :
      (route : Route) (svcs : List Service)
      → KeepsPorts (apply_and_record client setup same retry route svcs)
  unfolding apply_and_record record_services
  ports-apply_and_record route svcs =
      >>=-Keeps allocation (apply_services client setup same svcs route.status.services)
        (record_services client setup same retry route)
        (ports-apply_services svcs route.status.services)
        (λ recorded.
          retry-Keeps allocation r
            (write_route_status client setup same route (record { services = recorded }))
            (ports-write_route_status route (record { services = recorded })))

  ports-generated :
      (o : Option (List Service)) (route : Route)
      → KeepsPorts (or_halt {S = S} o >>= apply_and_record client setup same retry route)
  ports-generated none route w = refl
  ports-generated (some svcs) route w = ports-apply_and_record route svcs w

  ports-apply_route :
      (settings : AnnotationSettings) (source : KubernetesSource) (route : Route)
      → KeepsPorts (apply_route client setup same retry settings source route)
  unfolding apply_route
  ports-apply_route settings source route w =
      ports-generated (all_services_for setup settings route w.ports source.services) route w

  allocate_route-IsSound : (route : Route) → Holds IsSound (allocate_route client setup same route)
  unfolding allocate_route allocate_ports_for_routes
  allocate_route-IsSound route w = allocated-IsSound client (route_jobs (route ∷ [])) w _ refl

  manage_source-IsSound :
      (settings : AnnotationSettings) (route : Route) (source : KubernetesSource)
      → Holds IsSound (manage_source client setup same retry settings route source)
  unfolding manage_source allocate_and_apply cleanup_orphaned_services
  manage_source-IsSound settings route source =
      >>=-Holds IsSound (cleanup_recorded client setup route source route.status.services)
        (allocate_and_apply client setup same retry settings source)
        (cleanup_recorded-IsSound client setup route source route.status.services)
        (λ left.
          >>=-Holds IsSound (allocate_route client setup same left)
            (λ _. apply_route client setup same retry settings source left)
            (allocate_route-IsSound left)
            (λ _.
              kept (apply_route client setup same retry settings source left)
                (ports-apply_route settings source left)))

  manage_any-IsSound :
      (settings : AnnotationSettings) (route : Route) (source : Option KubernetesSource)
      → Holds IsSound (manage_any client setup same retry settings route source)
  unfolding manage_any
  manage_any-IsSound settings route none w s = s
  manage_any-IsSound settings route (some source) w s =
      manage_source-IsSound settings route source w s

  -- Managing the services of a route keeps the invariant of the allocator.
  pub manage_services-IsSound :
      (settings : AnnotationSettings) (route : Route)
      → Holds IsSound (manage_services client setup same retry settings route)
  unfolding manage_services
  manage_services-IsSound settings route = manage_any-IsSound settings route route.spec.kubernetes
