-- ===== src/EnvoyControlPlane/Served.antt =====
-- What a run of the Envoy control plane (internal/controllers/kubelb/envoy_cp_controller.go) leaves in
-- the cache and in the port allocator.
use kubelb_ce.Base.{◌≡◌, refl, arith, Bool, true, Option, none, some, List, [], ◌∷◌}
use kubelb_ce.Base.{text_eq, nat_eq}
use kubelb_ce.Base.Lists.{All}
use kubelb_ce.Base.Text.{Text}
use kubelb_ce.Api.{LoadBalancer, Route, Config, PodTemplate}
use kubelb_ce.Cluster.{Client, World, Result}
use kubelb_ce.LoadBalancerController.{Setup}
use kubelb_ce.Snapshot.Routes.{Snapshot, map_snapshot}
use kubelb_ce.Snapshot.Xds.{Cluster, Listener}
use kubelb_ce.EnvoyControlPlane.{
  SnapshotCache, TemplateEqual, is_live, live_load_balancers, live_routes,
}
use kubelb_ce.EnvoyControlPlane.Reconcile.{
  addresses_at, set_snapshot, replace_snapshot, cache_mapped, update_cache,
}

-- What the cache promises: a snapshot that was set is the current one.
pub record IsCache {S : Type 0} (cache : SnapshotCache S) : Type 0 where
  pub sets :
      (name : Text) (snapshot : Snapshot) (s : S)
      → (cache.set name snapshot s).0 ≡ none
      → cache.current name (cache.set name snapshot s).1 ≡ some snapshot
  pub clears : (name : Text) (s : S) → cache.current name (cache.clear name s) ≡ none

-- No load balancer that the control plane maps is marked for deletion.
pub live_load_balancers-IsLive :
    (lbs : List LoadBalancer)
    → All (λ (lb : LoadBalancer). is_live lb.meta ≡ true) (live_load_balancers lbs)
unfolding live_load_balancers
live_load_balancers-IsLive [] = tt
live_load_balancers-IsLive (lb ∷ lbs) = ground (arith, live_load_balancers-IsLive lbs)

-- No route that the control plane maps is marked for deletion.
pub live_routes-IsLive :
    (routes : List Route) → All (λ (route : Route). is_live route.meta ≡ true) (live_routes routes)
unfolding live_routes
live_routes-IsLive [] = tt
live_routes-IsLive (route ∷ routes) = ground (arith, live_routes-IsLive routes)

module _ {S : Type 0} (client : Client S) (cache : SnapshotCache S) (setup : Setup)
    (same : TemplateEqual) (template : Config → Text → Text → Text → PodTemplate)
    (hash : List Cluster → List Listener → Option Text) (consistent : Snapshot → Bool)
    (c : IsCache cache) where
  -- The version of the snapshot that the cache has.
  abbrev pub version_of : Option Snapshot → Option Text
  version_of none = none
  version_of (some snapshot) = some snapshot.version

  -- What an update of the cache leaves.
  abbrev pub Caches : Text → Option Snapshot → World S → Result Unit × World S → Type 0
  Caches name desired w (Result.ok _, w') =
      (snapshot : Snapshot) × (desired ≡ some snapshot)
      × (version_of (cache.current name w'.server) ≡ some snapshot.version)
  Caches name none w (_, w') = w' ≡ w
  Caches name (some _) w (_, w') = w'.ports ≡ w.ports

  replace_snapshot-Caches :
      (name : Text) (desired : Snapshot) (current : Option Snapshot) (w : World S)
      → cache.current name w.server ≡ current
      → Caches name
          (some desired)
          w
          (replace_snapshot client cache setup same template hash consistent name desired current w)
  unfolding replace_snapshot set_snapshot
  replace_snapshot-Caches name desired none w h = ground (arith, c.sets name desired w.server)
  replace_snapshot-Caches name desired (some current) w h =
      ground (arith, c.sets name desired w.server)

  cache_mapped-Caches :
      (name : Text) (desired : Option Snapshot) (w : World S)
      → Caches name desired w
          (cache_mapped client cache setup same template hash consistent name desired w)
  unfolding cache_mapped
  cache_mapped-Caches name none w = refl
  cache_mapped-Caches name (some desired) w = replace_snapshot-Caches name desired _ w refl

  -- After an update of the cache that ends well, the mapping of the load balancers and routes gave
  -- a snapshot, and the snapshot in the cache has its version. If the mapping fails, the update
  -- ends with an error and changes nothing. The cache gives back the snapshot that was set.
  pub update_cache-Caches :
      (name : Text) (lbs : List LoadBalancer) (routes : List Route) (w : World S)
      → Caches name
          (map_snapshot hash (addresses_at client w.server) lbs routes (some w.ports))
          w
          (update_cache client cache setup same template hash consistent name lbs routes w)
  unfolding update_cache
  update_cache-Caches name lbs routes w = cache_mapped-Caches name _ w
