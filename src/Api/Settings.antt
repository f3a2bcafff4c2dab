-- ===== src/Api/Settings.antt =====
-- The settings of tenants and of the global configuration: common_types.go, tenant_types.go and
-- config_types.go.
use kubelb_ce.Base.{Option, Bool, Eq}
use kubelb_ce.Base.Dict.{Dict}
use kubelb_ce.Base.Text.{Text}
use kubelb_ce.Api.Meta.{StringMap}

pub data AnnotatedResource : Type 0 where
  all service ingress gateway httproute grpcroute tcproute udproute tlsroute : AnnotatedResource

AnnotatedResource-discrete : Discrete AnnotatedResource
AnnotatedResource-discrete = hlevel

instance unfoldable pub resource_eq : Eq AnnotatedResource
unfolding AnnotatedResource-discrete
resource_eq = record { dec = AnnotatedResource-discrete }

pub record AnnotationSettings : Type 0 where
  pub propagated_annotations : Option StringMap
  pub propagate_all_annotations : Option Bool
  pub default_annotations : Option (Dict AnnotatedResource StringMap)

pub record LoadBalancerSettings : Type 0 where
  pub class : Option Text
  pub disable : Bool

pub record IngressSettings : Type 0 where
  pub class : Option Text
  pub disable : Bool

-- Of the default gateway the code reads the namespace and the name.
pub record GatewayApiSettings : Type 0 where
  pub class : Option Text
  pub default_gateway : Option (Text × Text)
  pub disable : Bool

pub record CertificatesSettings : Type 0 where
  pub default_cluster_issuer : Option Text

pub record DnsSettings : Type 0 where
  pub wildcard_domain : Option Text
  pub allow_explicit_hostnames : Option Bool
  pub use_dns_annotations : Option Bool
  pub use_certificate_annotations : Option Bool

pub record ConfigDnsSettings : Type 0 where
  pub wildcard_domain : Text
  pub allow_explicit_hostnames : Bool
  pub use_dns_annotations : Bool
  pub use_certificate_annotations : Bool

pub record TenantSpec : Type 0 where
  pub annotation_settings : AnnotationSettings
  pub load_balancer : LoadBalancerSettings
  pub ingress : IngressSettings
  pub gateway_api : GatewayApiSettings
  pub dns : DnsSettings
  pub certificates : CertificatesSettings

pub record ConfigSpec : Type 0 where
  pub annotation_settings : AnnotationSettings
  pub load_balancer : LoadBalancerSettings
  pub ingress : IngressSettings
  pub gateway_api : GatewayApiSettings
  pub dns : ConfigDnsSettings
  pub certificates : CertificatesSettings
