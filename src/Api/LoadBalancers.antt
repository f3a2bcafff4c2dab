-- ===== src/Api/LoadBalancers.antt =====
-- common_types.go, loadbalancer_types.go and addresses_types.go.
use kubelb_ce.Base.{ℕ, Option, List, Bool}
use kubelb_ce.Base.Text.{Text, txt}
use kubelb_ce.Api.Meta.{ObjectMeta, ServicePort, IngressPoint}

pub record EndpointAddress : Type 0 where
  pub ip : Text
  pub hostname : Text

pub record EndpointPort : Type 0 where
  pub name : Text
  pub port : ℕ
  pub protocol : Text

-- Of the reference the code reads the name.
pub record LoadBalancerEndpoints : Type 0 where
  pub name : Text
  pub addresses : List EndpointAddress
  pub addresses_reference : Option Text
  pub ports : List EndpointPort

pub record LoadBalancerPort : Type 0 where
  pub name : Text
  pub protocol : Text
  pub port : ℕ

pub record LoadBalancerSpec : Type 0 where
  pub endpoints : List LoadBalancerEndpoints
  pub ports : List LoadBalancerPort
  pub hostname : Text
  pub type : Text

pub record HostnameStatus : Type 0 where
  pub hostname : Text
  pub tls_enabled : Bool
  pub dns_record_created : Bool

-- `kubelbv1alpha1.ServicePort`: a service port with the port of the endpoint behind it.
pub record StatusPort : Type 0 where
  pub service_port : ServicePort
  pub upstream_target_port : ℕ

pub record ServiceStatus : Type 0 where
  pub ports : List StatusPort

pub record LoadBalancerStatus : Type 0 where
  pub ingress : List IngressPoint
  pub service : ServiceStatus
  pub hostname : Option HostnameStatus

pub record LoadBalancer : Type 0 where
  pub meta : ObjectMeta
  pub spec : LoadBalancerSpec
  pub status : LoadBalancerStatus

abbrev pub default_address_name : Text
default_address_name = txt "default"
