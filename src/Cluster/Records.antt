-- ===== src/Cluster/Records.antt =====
-- What the recorded calls say: which objects were saved and in which order, and which are gone.
use kubelb_ce.Base.{Bool, true, false, not, ◌&&◌, ◌||◌, text_eq, ◌==◌, contains}
use kubelb_ce.Base.Text.{Text}
use kubelb_ce.Base.{none, some, List, [], ◌∷◌}
use kubelb_ce.Api.{LoadBalancer, Service, Route}
use kubelb_ce.Events.{Request}
use kubelb_ce.Cluster.{Kind, Failure, Write}

-- The load balancers that were saved by an update, the newest first.
unfoldable pub saved : List Write → List LoadBalancer
saved [] = []
saved (Write.updated Kind.load_balancer lb none ∷ ws) = lb ∷ saved ws
saved (_ ∷ ws) = saved ws

-- The objects that were deleted, or found to be gone already, the newest first.
unfoldable pub gone : List Write → List (Kind × Request)
gone [] = []
gone (Write.deleted k key none ∷ ws) = (k, key) ∷ gone ws
gone (Write.deleted k key (some Failure.not_found) ∷ ws) = (k, key) ∷ gone ws
gone (_ ∷ ws) = gone ws

-- The services that were created or updated, as they were sent, the newest first.
unfoldable pub saved_services : List Write → List Service
saved_services [] = []
saved_services (Write.created Kind.service svc none ∷ ws) = svc ∷ saved_services ws
saved_services (Write.updated Kind.service svc none ∷ ws) = svc ∷ saved_services ws
saved_services (_ ∷ ws) = saved_services ws

-- The load balancers that were created or updated, the newest first.
unfoldable pub published : List Write → List LoadBalancer
published [] = []
published (Write.created Kind.load_balancer lb none ∷ ws) = lb ∷ published ws
published (Write.updated Kind.load_balancer lb none ∷ ws) = lb ∷ published ws
published (_ ∷ ws) = published ws

-- The routes that were saved by an update, the newest first.
unfoldable pub saved_routes : List Write → List Route
saved_routes [] = []
saved_routes (Write.updated Kind.route route none ∷ ws) = route ∷ saved_routes ws
saved_routes (_ ∷ ws) = saved_routes ws

-- A service was created or updated.
unfoldable pub saves_service : Write → Bool
saves_service (Write.created Kind.service svc none) = true
saves_service (Write.updated Kind.service svc none) = true
saves_service _ = false

-- The load balancer of the key was saved with the finalizer.
unfoldable pub saves_finalizer : Text → Request → Write → Bool
saves_finalizer f key (Write.updated Kind.load_balancer lb none) =
    contains lb.meta.finalizers f
    && (lb.meta.name == key.name && lb.meta.namespace == key.namespace)
saves_finalizer f key _ = false

unfoldable pub finalizer_saved : Text → Request → List Write → Bool
unfolding saves_finalizer
finalizer_saved f key [] = false
finalizer_saved f key (x ∷ ws) = saves_finalizer f key x || finalizer_saved f key ws

-- Before each call that saved a service, the load balancer of the key was saved with the finalizer.
unfoldable pub finalizer_first : Text → Request → List Write → Bool
unfolding saves_service finalizer_saved
finalizer_first f key [] = true
finalizer_first f key (x ∷ ws) =
    (not (saves_service x) || finalizer_saved f key ws) && finalizer_first f key ws
