-- ===== src/Runs.antt =====
-- The controllers of the manager, which share one port allocator: the runs of
-- internal/controllers/kubelb/loadbalancer_controller.go, envoy_cp_controller.go and
-- route_controller.go one after another in any order, with any changes of the cluster by others
-- between them. One run does not interrupt another here.
use kubelb_ce.Base.{ℕ, Bool, Option, List}
use kubelb_ce.Base.Lists.{All}
use kubelb_ce.Base.Text.{Text}
use kubelb_ce.Api.{AnnotationSettings, Config, PodTemplate, Route}
use kubelb_ce.Cluster.{Client, World, Action}
use kubelb_ce.Cluster.Keeps.{IsRetry}
use kubelb_ce.EnvoyControlPlane.{SnapshotCache, TemplateEqual}
use kubelb_ce.Events.{Request}
use kubelb_ce.LoadBalancerController.{Setup, DeepEqual}
use kubelb_ce.LoadBalancerController.Hostname.{SetOwner}
use kubelb_ce.Ports.Draws.{IsDraw}
use kubelb_ce.RouteController.{cleanup_route}
use kubelb_ce.RouteController.Apply.{RouteEqual, manage_services}
use kubelb_ce.Snapshot.Routes.{Snapshot}
use kubelb_ce.Snapshot.Xds.{Cluster, Listener}
use kubelb_ce.LoadBalancerController.Reconcile as LoadBalancerRun
use kubelb_ce.EnvoyControlPlane.Reconcile as ControlPlaneRun
use kubelb_ce.LoadBalancerController.Reconcile.Ports as LoadBalancerPorts
use kubelb_ce.LoadBalancerController.Reconcile.Allocation.{IsSound}
use kubelb_ce.EnvoyControlPlane.Ports as ControlPlanePorts
use kubelb_ce.RouteController.Ports.{cleanup_route-IsSound, manage_services-IsSound}

-- What the program is put together from.
pub record Parts (S : Type 0) : Type 0 where
  pub client : Client S
  pub cache : SnapshotCache S
  pub setup : Setup
  pub same : DeepEqual
  pub same_templates : TemplateEqual
  pub same_routes : RouteEqual
  pub set_owner : SetOwner
  pub template : Config → Text → Text → Text → PodTemplate
  pub hash : List Cluster → List Listener → Option Text
  pub consistent : Snapshot → Bool
  pub retry : Action S Unit → Action S Unit

-- The worlds that the runs of the controllers reach.
pub data Reaches {S : Type 0} (parts : Parts S) (v : World S) : World S → Type 0 where
  start : Reaches parts v v
  by_load_balancer :
      {w : World S} (req : Request)
      → Reaches parts v w
      → Reaches parts v
          (LoadBalancerRun.reconcile parts.client parts.setup parts.same parts.set_owner parts.retry
            req w).1
  by_control_plane :
      {w : World S} (req : Request)
      → Reaches parts v w
      → Reaches parts v
          (ControlPlaneRun.reconcile parts.client parts.cache parts.setup parts.same_templates
            parts.template parts.hash parts.consistent req w).1
  by_route :
      {w : World S} (settings : AnnotationSettings) (route : Route)
      → Reaches parts v w
      → Reaches parts v
          (manage_services parts.client parts.setup parts.same_routes parts.retry settings route
            w).1
  by_route_cleanup :
      {w : World S} (route : Route)
      → Reaches parts v w
      → Reaches parts v (cleanup_route parts.client parts.setup route w).1
  by_others : {w : World S} (s : S) → Reaches parts v w → Reaches parts v (record w { server = s })
  by_chance :
      {w : World S} (draws : List ℕ)
      → All IsDraw draws
      → Reaches parts v w
      → Reaches parts v (record w { draws = draws })

-- In every world that runs of the three controllers reach, in any order and with any changes by
-- others in between, the tables of the port allocator keep their invariant: no key is listed twice,
-- and the reverse table holds the ports of the lookup table and no other. The retry runs nothing
-- but its function, and the random numbers are those of the range.
pub Reaches-IsSound :
    {S : Type 0} (parts : Parts S)
    → IsRetry parts.retry
    → {v w : World S} → Reaches parts v w
    → IsSound v
    → IsSound w
Reaches-IsSound parts r Reaches.start s = s
Reaches-IsSound parts r (Reaches.by_load_balancer {w} req path) s =
    let (good, drawn) = Reaches-IsSound parts r path s in
    LoadBalancerPorts.reconcile-IsSound parts.client parts.setup parts.same parts.set_owner
      parts.retry r req w good drawn
Reaches-IsSound parts r (Reaches.by_control_plane {w} req path) s =
    ControlPlanePorts.reconcile-IsSound parts.client parts.cache parts.setup parts.same_templates
      parts.template parts.hash parts.consistent req w (Reaches-IsSound parts r path s)
Reaches-IsSound parts r (Reaches.by_route {w} settings route path) s =
    manage_services-IsSound parts.client parts.setup parts.same_routes parts.retry r settings route
      w (Reaches-IsSound parts r path s)
Reaches-IsSound parts r (Reaches.by_route_cleanup {w} route path) s =
    cleanup_route-IsSound parts.client parts.setup route w (Reaches-IsSound parts r path s)
Reaches-IsSound parts r (Reaches.by_others t path) s = Reaches-IsSound parts r path s
Reaches-IsSound parts r (Reaches.by_chance draws drawn path) s =
    ((Reaches-IsSound parts r path s).0, drawn)
