-- ===== src/Api/Meta.antt =====
-- The types of Kubernetes that the custom resources embed.
use kubelb_ce.Base.{ℕ, Option, none, some, List, [], Bool, false}
use kubelb_ce.Base.Dict.{Dict, lookup}
use kubelb_ce.Base.Text.{Text}
use kubelb_ce.Base.{text_eq}

-- `map[string]string`
abbrev pub StringMap : Type 0
StringMap = Option (Dict Text Text)

-- `m[k]`, which a nil map answers too.
unfoldable pub get : StringMap → Text → Option Text
get none k = none
get (some m) k = lookup k m

abbrev pub entries : StringMap → Dict Text Text
entries none = []
entries (some m) = m

-- The zero value of a string for a missing key.
abbrev pub or_empty : Option Text → Text
or_empty none = []
or_empty (some t) = t

-- `*p` for a pointer to a flag that is set: `p != nil && *p`.
abbrev pub is_true : Option Bool → Bool
is_true none = false
is_true (some b) = b

pub record ObjectMeta : Type 0 where
  pub name : Text
  pub namespace : Text
  pub uid : Text
  pub labels : StringMap
  pub annotations : StringMap
  pub deletion_timestamp : Option ℕ
  pub finalizers : List Text

-- `corev1.ServicePort`; `target_port` is the integer of the `IntOrString`.
pub record ServicePort : Type 0 where
  pub name : Text
  pub protocol : Text
  pub port : ℕ
  pub target_port : ℕ
  pub node_port : ℕ

-- `corev1.LoadBalancerIngress`
pub record IngressPoint : Type 0 where
  pub ip : Text
  pub hostname : Text

-- `corev1.Service`; `class` is its `loadBalancerClass`.
pub record Service : Type 0 where
  pub meta : ObjectMeta
  pub type : Text
  pub ports : List ServicePort
  pub selector : StringMap
  pub cluster_ip : Text
  pub class : Option Text
  pub ingress : List IngressPoint
