-- ===== src/Api/Routes.antt =====
-- route_types.go. Of the embedded source object the code reads its kind, name, namespace and UID.
use kubelb_ce.Base.{Option, List}
use kubelb_ce.Base.Dict.{Dict}
use kubelb_ce.Base.Text.{Text}
use kubelb_ce.Api.Meta.{ObjectMeta, ServicePort, Service}
use kubelb_ce.Api.LoadBalancers.{LoadBalancerEndpoints}

-- `unstructured.Unstructured`
pub record SourceObject : Type 0 where
  pub kind : Text
  pub meta : ObjectMeta

pub record KubernetesSource : Type 0 where
  pub route : SourceObject
  pub services : List Service

pub record RouteSpec : Type 0 where
  pub endpoints : List LoadBalancerEndpoints
  pub kubernetes : Option KubernetesSource

-- Of the resource state the code reads the names. The conditions and the raw status are left out.
pub record RouteServiceStatus : Type 0 where
  pub generated_name : Text
  pub namespace : Text
  pub name : Text
  pub ports : List ServicePort

pub record RouteStatus : Type 0 where
  pub services : Option (Dict Text RouteServiceStatus)

pub record Route : Type 0 where
  pub meta : ObjectMeta
  pub spec : RouteSpec
  pub status : RouteStatus
