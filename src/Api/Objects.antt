-- ===== src/Api/Objects.antt =====
-- The objects that the controllers keep: `Tenant` and `Config` of api/ce/kubelb.k8c.io/v1alpha1, and
-- the ingresses and HTTP routes of Kubernetes, cut to the fields in use.
use kubelb_ce.Base.{ℕ, Option, List, Bool}
use kubelb_ce.Base.Text.{Text}
use kubelb_ce.Api.Meta.{ObjectMeta, StringMap}
use kubelb_ce.Api.Settings.{TenantSpec, ConfigSpec}

pub record Tenant : Type 0 where
  pub meta : ObjectMeta
  pub spec : TenantSpec

-- The last three fields are of `Spec.EnvoyProxy`.
pub record Config : Type 0 where
  pub meta : ObjectMeta
  pub spec : ConfigSpec
  pub topology : Text
  pub use_daemonset : Bool
  pub replicas : ℕ

-- `corev1.PodTemplateSpec`, with the fields that the control plane compares. The last five are
-- structures of Kubernetes that it compares whole, and are held as they are printed.
pub record PodTemplate : Type 0 where
  pub annotations : StringMap
  pub labels : StringMap
  pub termination_grace_period : Option ℕ
  pub containers : Text
  pub affinity : Text
  pub tolerations : Text
  pub node_selector : Text
  pub topology_spread_constraints : Text

-- `appsv1.Deployment` or `appsv1.DaemonSet`, which has no replicas.
pub record Workload : Type 0 where
  pub meta : ObjectMeta
  pub replicas : Option ℕ
  pub selector : StringMap
  pub template : PodTemplate

-- `networkingv1.IngressServiceBackend`; `port` is the number.
pub record IngressService : Type 0 where
  pub name : Text
  pub port : ℕ

pub record IngressPath : Type 0 where
  pub path : Text
  pub path_type : Text
  pub service : Option IngressService

-- `http` holds the paths.
pub record IngressRule : Type 0 where
  pub host : Text
  pub http : Option (List IngressPath)

pub record IngressTls : Type 0 where
  pub hosts : List Text
  pub secret_name : Text

-- Of the default backend the code reads the service.
pub record IngressSpec : Type 0 where
  pub class : Option Text
  pub default_backend : Option IngressService
  pub rules : List IngressRule
  pub tls : List IngressTls

pub record Ingress : Type 0 where
  pub meta : ObjectMeta
  pub spec : IngressSpec

-- A reference to a backend or to a parent.
pub record Reference : Type 0 where
  pub kind : Option Text
  pub name : Text
  pub namespace : Option Text
  pub port : Option ℕ

-- Of a filter the code reads the backend of `requestMirror`.
pub record HttpFilter : Type 0 where
  pub request_mirror : Option Reference

pub record HttpBackend : Type 0 where
  pub reference : Reference
  pub filters : List HttpFilter

pub record HttpRule : Type 0 where
  pub filters : List HttpFilter
  pub backends : List HttpBackend

pub record HttpRouteSpec : Type 0 where
  pub parents : List Reference
  pub hostnames : List Text
  pub rules : List HttpRule

pub record HttpRoute : Type 0 where
  pub meta : ObjectMeta
  pub spec : HttpRouteSpec
