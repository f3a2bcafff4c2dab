-- ===== src/Witnesses/Others.antt =====
-- The other controllers at concrete inputs, on the server of the load balancer controller's.
use kubelb_ce.Base.{◌≡◌, refl, Bool, true, false, none, some, Option, List, [], ◌∷◌, arith}
use kubelb_ce.Base.{eq_refl, text_eq, nat_eq, contains}
use kubelb_ce.Base.Dict
use kubelb_ce.Base.Dict.{Dict}
use kubelb_ce.Base.Text.{Text, txt}
use kubelb_ce.Api.{Route, RouteServiceStatus, PodTemplate, Config}
use kubelb_ce.Cluster.{Client, World, Answer, Failure}
use kubelb_ce.Cluster.Memory.{memory, once, once-IsRetry}
use kubelb_ce.EnvoyControlPlane.{SnapshotCache, TemplateEqual}
use kubelb_ce.EnvoyControlPlane.Reconcile as ControlPlaneRun
use kubelb_ce.EnvoyControlPlane.Reconcile.{addresses_at, update_cache}
use kubelb_ce.EnvoyControlPlane.Served.{IsCache, Caches, update_cache-Caches}
use kubelb_ce.Events.{Request}
use kubelb_ce.LoadBalancerController.Reconcile.Allocation.{IsSound}
use kubelb_ce.Finalizers.{cleanup_finalizer}
use kubelb_ce.Keys.{route_endpoint_key}
use kubelb_ce.Labels.{original_route_name}
use kubelb_ce.Nodes.{AddressesObject}
use kubelb_ce.Nodes.Publish.{Publishes, publish_found, publish_found-Publishes}
use kubelb_ce.Ports.{new_port_allocator, lookup}
use kubelb_ce.Ports.State.{new_port_allocator-IsWellFormed}
use kubelb_ce.RouteController.{cleanup_route, remove_orphans}
use kubelb_ce.RouteController.Orphans.{
  Keeps, orphan_keys, lookup-remove_orphans, remove_orphans-Keeps,
}
use kubelb_ce.Runs.{Parts, Reaches, Reaches-IsSound}
use kubelb_ce.ServiceController.{Options, publish, cleanup_service}
use kubelb_ce.ServiceController.Desired.{
  Settles, Releases, publish-Settles, cleanup_service-Releases,
}
use kubelb_ce.Snapshot.Routes.{Snapshot, map_snapshot}
use kubelb_ce.Snapshot.Xds.{Cluster, Listener}
use kubelb_ce.Witnesses.{two_draws, drawn}
use kubelb_ce.Witnesses.Controllers.{
  client, world, meta, tcp, web_service, lb, setup, same, set_owner, config,
}
use kubelb_ce.Witnesses.Equality.{same_entries_complete}

abbrev options : Options
options = record {
  cluster_name = txt "tenant-x";
  cloud_controller = false;
  use_load_balancer_class = false;
}

same_dicts : (d : Dict Text Text) → same.dicts d d ≡ true
same_dicts d = same_entries_complete d d (λ k. refl)

publish-Settles_example :
    Settles client client options same once once-IsRetry same_dicts lb
      (Answer.object lb)
      world
      (publish client client options same once web_service lb (Answer.object lb) world)
publish-Settles_example =
    publish-Settles client client options same once once-IsRetry same_dicts web_service lb
      (Answer.object lb) world

cleanup_service-Releases_example :
    Releases client client options same once once-IsRetry same_dicts world web_service
      cleanup_finalizer
      (cleanup_service client client options same once web_service world)
cleanup_service-Releases_example =
    cleanup_service-Releases client client options same once once-IsRetry same_dicts web_service
      cleanup_finalizer world

-- A cache in memory, and a server that holds nothing beside it.
abbrev Snapshots : Type 0
Snapshots = Dict Text Snapshot

abbrev cache : SnapshotCache Snapshots
cache = record {
  clear = λ name s. Dict.erase name s;
  current = λ name s. Dict.lookup name s;
  set = λ name snapshot s. (none, Dict.insert name snapshot s);
}

lookup_inserted :
    (name : Text) (snapshot : Snapshot) (s : Snapshots)
    → Dict.lookup name (Dict.insert name snapshot s) ≡ some snapshot
lookup_inserted name snapshot s =
    ground (arith, Dict.lookup-insert name name snapshot s, eq_refl name)

lookup_erased : (name : Text) (s : Snapshots) → Dict.lookup name (Dict.erase name s) ≡ none
lookup_erased name s = ground (arith, Dict.lookup-erase name name s, eq_refl name)

cache-IsCache : IsCache cache
cache-IsCache = record {
  sets = λ name snapshot s h. lookup_inserted name snapshot s;
  clears = lookup_erased;
}

abbrev caching : Client Snapshots
caching =
    memory (record { service = none; load_balancer = none; tenant = none; config = some config })

abbrev caching_world : World Snapshots
caching_world = record { server = []; ports = new_port_allocator; draws = two_draws; writes = [] }

abbrev same_templates : TemplateEqual
same_templates = record { maps = λ a b. true; numbers = λ a b. true }

abbrev template : Config → Text → Text → Text → PodTemplate
template c namespace app_name snapshot_name = record {
  annotations = none;
  labels = none;
  termination_grace_period = none;
  containers = [];
  affinity = [];
  tolerations = [];
  node_selector = [];
  topology_spread_constraints = [];
}

abbrev hash : List Cluster → List Listener → Option Text
hash clusters listeners = some (txt "1")

abbrev consistent : Snapshot → Bool
consistent snapshot = true

abbrev recorded : RouteServiceStatus
recorded = record {
  generated_name = txt "old-7";
  namespace = txt "apps";
  name = txt "old";
  ports = tcp ∷ [];
}

abbrev services : Dict Text RouteServiceStatus
services = (txt "tenant-x/old", recorded) ∷ []

abbrev route : Route
route = record {
  meta = meta;
  spec = record { endpoints = []; kubernetes = none };
  status = record { services = some services };
}

real_key : contains (orphan_keys route services) (txt "tenant-x-ep-apps-old-web") ≡ false
unfolding route_endpoint_key original_route_name text_eq
real_key = refl

lookup-remove_orphans_example :
    lookup
      (remove_orphans client setup route [] services services world).1.ports
      (txt "tenant-x-ep-apps-old-web")
      (txt "80-TCP")
    ≡ lookup world.ports (txt "tenant-x-ep-apps-old-web") (txt "80-TCP")
lookup-remove_orphans_example =
    lookup-remove_orphans client setup route [] services services world
      (txt "tenant-x-ep-apps-old-web") (txt "80-TCP") real_key

kept_key : contains (txt "tenant-x/web" ∷ []) (txt "tenant-x/web") ≡ true
unfolding text_eq
kept_key = refl

remove_orphans-Keeps_example :
    Keeps client setup
      (txt "tenant-x/web")
      services
      (remove_orphans client setup route (txt "tenant-x/web" ∷ []) services services world).0
remove_orphans-Keeps_example =
    remove_orphans-Keeps client setup route (txt "tenant-x/web" ∷ []) services services world
      (txt "tenant-x/web") kept_key

update_cache-Caches_example :
    Caches caching cache setup same_templates template hash consistent cache-IsCache
      (txt "tenant-x")
      (map_snapshot hash
        (addresses_at caching caching_world.server)
        (lb ∷ [])
        []
        (some caching_world.ports))
      caching_world
      (update_cache caching cache setup same_templates template hash consistent
        (txt "tenant-x")
        (lb ∷ [])
        []
        caching_world)
update_cache-Caches_example =
    update_cache-Caches caching cache setup same_templates template hash consistent cache-IsCache
      (txt "tenant-x") (lb ∷ []) [] caching_world

abbrev addresses : AddressesObject
addresses = record {
  name = txt "default";
  namespace = txt "tenant-x";
  addresses = record { ip = txt "10.0.0.1"; hostname = [] } ∷ [];
}

publish_found-Publishes_example :
    Publishes client client
      (λ a b. false)
      addresses
      (Answer.failure Failure.not_found)
      world
      (publish_found client client
        (λ a b. false)
        addresses
        (Answer.failure Failure.not_found)
        world)
publish_found-Publishes_example =
    publish_found-Publishes client client (λ a b. false) addresses
      (Answer.failure Failure.not_found) world

abbrev parts : Parts Snapshots
parts = record {
  client = caching;
  cache = cache;
  setup = setup;
  same = same;
  same_templates = same_templates;
  same_routes = record { specs = λ a b. false; maps = λ a b. false; statuses = λ a b. false };
  set_owner = set_owner;
  template = template;
  hash = hash;
  consistent = consistent;
  retry = once;
}

abbrev web_request : Request
web_request = record { name = txt "web"; namespace = txt "tenant-x" }

Reaches-IsSound_example :
    IsSound
      (ControlPlaneRun.reconcile caching cache setup same_templates template hash consistent
        web_request
        (cleanup_route caching setup route caching_world).1).1
Reaches-IsSound_example =
    Reaches-IsSound parts once-IsRetry
      (Reaches.by_control_plane web_request (Reaches.by_route_cleanup route Reaches.start))
      (new_port_allocator-IsWellFormed, drawn)
