-- ===== src/Snapshot/Consistent.antt =====
-- `MapSnapshot` of internal/envoy/resource.go: the clusters to which its listeners refer.
use kubelb_ce.Base.{◌≡◌}
use kubelb_ce.Base.{Option, some, List, [], ◌∷◌, ◌++◌}
use kubelb_ce.Snapshot.Induction.{add_load_balancers-keeps, add_routes-keeps}
use kubelb_ce.Base.Dict.{Dict}
use kubelb_ce.Base.Lists.{All}
use kubelb_ce.Base.{>>=-eq-some}
use kubelb_ce.Base.Text.{Text}
use kubelb_ce.Api.{EndpointAddress, LoadBalancer, Route}
use kubelb_ce.Ports.{PortAllocator}
use kubelb_ce.Snapshot.{Resources, no_resources, add_load_balancers}
use kubelb_ce.Snapshot.Xds.{Cluster, Listener, target_cluster}
use kubelb_ce.Snapshot.Routes.{Snapshot, map_resources, map_snapshot}
use kubelb_ce.Snapshot.Entries.{IsConsistent, Good, IsConsistent-add}

learn :
    (r : Resources) (known : Dict Text (List EndpointAddress))
    → Good r
    → Good (record r { addresses = known })
learn r known g = g

add :
    (r : Resources) (c : Cluster) (ms : List Listener)
    → All (λ (m : Listener). target_cluster m.filter ≡ c.name) ms
    → Good r
    → Good (record r { clusters = r.clusters ++ c ∷ []; listeners = r.listeners ++ ms })
add r c ms named g = IsConsistent-add r.clusters c r.listeners ms g named

-- In every snapshot that is made, the cluster of each listener is among the clusters.
pub map_snapshot-IsConsistent :
    (get_addresses : Text → Text → Option (List EndpointAddress)) (pa : Option PortAllocator)
    (hash : List Cluster → List Listener → Option Text) (lbs : List LoadBalancer)
    (routes : List Route) {snapshot : Snapshot}
    → map_snapshot hash get_addresses lbs routes pa ≡ some snapshot
    → IsConsistent snapshot.clusters snapshot.listeners
unfolding map_snapshot map_resources
map_snapshot-IsConsistent get_addresses pa hash lbs routes {snapshot} h =
    let (r, made, hashed) = >>=-eq-some (map_resources get_addresses pa lbs routes) _ h in
    let (l, first, later) =
      >>=-eq-some (add_load_balancers get_addresses pa lbs no_resources) _ made in
    let good =
      add_routes-keeps get_addresses pa {P = Good} learn add routes l later (
        add_load_balancers-keeps get_addresses pa {P = Good} learn add lbs no_resources first tt) in
    let (version, _, result) = >>=-eq-some (hash r.clusters r.listeners) _ hashed in
    let same : record { version = version; clusters = r.clusters; listeners = r.listeners }
        ≡ snapshot =
      cc result in
    rw (← same) good
