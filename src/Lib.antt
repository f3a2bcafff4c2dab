-- ===== src/Lib.antt =====
-- KubeLB, the load balancer manager for Kubernetes tenants: the logic between the custom resources
-- of a tenant, the ports on which Envoy listens, and the services that lead to them.
--
-- The parts and the files that model them:
--
-- - Base: shared names, Go maps as association lists (Base/Dict), strings as lists of bytes
--   (Base/Text, Base/Strings), lists over the native numbers (Base/Lists).
-- - Api: the types of api/ce/kubelb.k8c.io/v1alpha1 and the Kubernetes types that they embed, each
--   cut to the fields that the modelled code reads or writes.
-- - Keys: the format patterns of internal/kubelb/utils.go by which the allocator and Envoy name
--   endpoints, ports and resources.
-- - Labels, Names: `AddKubeLBLabels`, `GetName`, `GetNamespace` and `GenerateName` of the same file,
--   and `getOriginalRouteName` of internal/envoy/resource.go.
-- - Ports: internal/port-lookup. Ports.antt has the allocator of allocator.go (`AllocatePorts`,
--   `DeallocatePorts`, `DeallocateEndpoints`, `Lookup`, `recomputeAvailablePorts`), Ports/Mapper the
--   passes of mapper.go over load balancers and routes, Ports/Load `LoadState`. The mutex makes every
--   operation atomic, so an operation is a function from a state to a state. The random numbers are
--   a list of draws that a call takes from the front; `none` says that the list ended. Enough
--   draws are as many rounds over all values of the generator as there are port keys (Ports/Ending).
-- - ServicePorts: `CreateServicePorts` of internal/kubelb/loadbalancer.go and the recording of the
--   ports in `updateLoadBalancerStatus` of internal/controllers/kubelb/loadbalancer_controller.go.
-- - LoadBalancers: `MapLoadBalancer` and `LoadBalancerIsDesiredState` of internal/kubelb/loadbalancer.go.
-- - Snapshot: `MapSnapshot` of internal/envoy/resource.go with its makers of clusters and listeners.
--   The reads of `Addresses` objects and the hash of the serialised resources are arguments. The
--   resources stay lists here, which the snapshot of go-control-plane indexes by their names.
-- - Annotations: internal/util/kubernetes/util.go, `PropagateAnnotations` of
--   internal/kubelb/utils.go, `GetAnnotations` of internal/controllers/kubelb/shared.go. The equality
--   of maps of apimachinery is an argument, with the hypothesis that equal maps answer alike.
-- - Hostnames: `GenerateHostname`, `isValidHostname`, `ShouldConfigureHostname` of
--   internal/kubelb/loadbalancer.go and `AddDNSAndCertificateAnnotations` of internal/kubelb/utils.go.
-- - RouteServices: `GenerateServiceForLBCluster` and `GenerateBridgeService` of
--   internal/resources/service/service.go.
-- - Nodes: `GenerateAddresses` of internal/controllers/ccm/node_controller.go.
-- - Events: the filters of internal/util/predicate/predicate.go, the string helpers of
--   internal/controllers/utils.go, `enqueueRoutes` of internal/controllers/ccm/shared.go, the handlers
--   and tests of internal/controllers/ccm/service_controller.go, and the settings that stop a load
--   balancer or a route in internal/controllers/kubelb.
-- - Cluster: the world that the controllers act on. The API server, the clock, the network and the
--   random bytes are a record of functions on a state of their own (`Client`), so that any answer and
--   any change by others between two calls is possible. Every call that writes is recorded with its
--   answer. An action ends with a result, an error, or in a panic. `Cluster/Keeps` has what steps
--   keep, `Cluster/Records` what the recorded calls say, `Cluster/Memory` a server for concrete runs.
-- - Finalizers: the finalizer of the controllers and the operations on the list of them.
-- - LoadBalancerController: internal/controllers/kubelb/loadbalancer_controller.go, a module for each
--   step: Cleanup (`cleanup`), Services (`reconcileService`), Configure (`configureHostname`), Hostname
--   (`CreateIngressForHostname` of internal/resources/ingress/ingress.go and
--   `CreateHTTPRouteForHostname` of internal/resources/gatewayapi/httproute/httproute.go), Status
--   (`updateLoadBalancerStatus`), Reconcile (`Reconcile`), Requests (the handlers of events).
-- - ServiceController: internal/controllers/ccm/service_controller.go, on the clusters of the tenant
--   and of the load balancers.
-- - Nodes/Publish: `Reconcile` of internal/controllers/ccm/node_controller.go.
-- - RouteController: of internal/controllers/kubelb/route_controller.go `cleanup`,
--   `cleanupOrphanedServices`, `manageServices` and `UpdateRouteStatus`, with `CreateOrUpdateService` of
--   internal/resources/service/service.go.
-- - EnvoyControlPlane: internal/controllers/kubelb/envoy_cp_controller.go. The cache of
--   go-control-plane and the pod template are parameters; all `Addresses` objects of a mapping are
--   read from one state of the server.
-- - Runs: the controllers of the manager one after another, in any order, over one port allocator.
-- - Witnesses: the theorems at concrete inputs.
--
-- How they interact: `MapLoadBalancer` makes the resource of a tenant's service; the allocator gives
-- each endpoint port of the resource a port of the range; `CreateServicePorts` and `MapSnapshot` both
-- look it up, by the same keys; `LoadState` reads the allocator back from the recorded statuses.
--
-- Bounds: ports are natural numbers, and those of the code fit its 32-bit integers. Texts are bytes,
-- and the functions on letter case and white space are those of ASCII. Loops are structural recursion.
-- The loop of `allocatePort` recurses on the draws.
--
-- A retry on a conflict is a function of the library that runs its argument any number of times. The
-- answer of an update replaces the object that was sent, as the client does it; an object that
-- `PropagateAnnotations` changes behind its caller comes back changed. Errors are told apart as the
-- code does: not found, conflict, or any other.
--
-- Not modelled: `manageRoutes` and `Reconcile` of the route controller with the other makers of
-- Kubernetes objects under internal/resources, the pod template of Envoy, the controllers of
-- tenants, bridge services, secrets, ingresses and gateways, the bootstrap and the gRPC server of
-- Envoy, metrics, logging, the command lines, generated code and the types of the enterprise edition.
pub mod Annotations
pub mod Api
pub mod Base
pub mod Cluster
pub mod LoadBalancerController
pub mod Keys
pub mod EnvoyControlPlane
pub mod Events
pub mod Finalizers
pub mod ServiceController
pub mod Hostnames
pub mod Labels
pub mod LoadBalancers
pub mod Names
pub mod Nodes
pub mod Ports
pub mod RouteServices
pub mod RouteController
pub mod Runs
pub mod ServicePorts
pub mod Snapshot
pub mod Witnesses
