-- ===== src/Api.antt =====
-- The custom resources of api/ce/kubelb.k8c.io/v1alpha1, with the fields that the modelled code
-- reads or writes. A Go pointer is an `Option`, and so is a map, whose nil value is `none`.
-- Ports are natural numbers: the API server refuses negative ones. `ObjectMeta`, `ObjectReference`,
-- `corev1.ServicePort` and `corev1.Service` are types of Kubernetes, cut to the fields in use.
mod Meta
mod LoadBalancers
mod Routes
mod Settings
mod Objects
unfoldable pub use Meta.*
unfoldable pub use LoadBalancers.*
unfoldable pub use Routes.*
unfoldable pub use Settings.*
unfoldable pub use Objects.*
