-- ===== src/Hostnames.antt =====
-- `GenerateHostname`, `isValidHostname`, `ShouldConfigureHostname` (internal/kubelb/loadbalancer.go)
-- and `AddDNSAndCertificateAnnotations` (internal/kubelb/utils.go). The random bytes and the time are
-- arguments; the logging is left out. Texts are ASCII.
pub mod Granted
pub mod DnsAnnotations
use kubelb_ce.Base.{
  ℕ, ◌+◌, ◌-◌, ◌/◌, ◌%◌, Bool, true, false, not, ◌&&◌, ◌||◌, Option, none, some, List, [], ◌∷◌,
  ◌++◌,
}
use kubelb_ce.Base.{leb, ltb, text_eq, nat_eq, ◌==◌, if◌then◌else◌}
use kubelb_ce.Base.Dict
use kubelb_ce.Base.Dict.{Dict, has_value}
use kubelb_ce.Base.Lists.{length}
use kubelb_ce.Base.Strings.{contains_text, has_prefix, has_suffix, split, to_lower, trim_prefix}
use kubelb_ce.Base.Text.{Text, txt, show}
use kubelb_ce.Api.{
  StringMap, DnsSettings, ConfigDnsSettings, TenantSpec, ConfigSpec, get, is_true, or_empty,
}

abbrev pub annotation_request_wildcard_domain : Text
annotation_request_wildcard_domain = txt "kubelb.k8c.io/request-wildcard-domain"

-- `[a-z0-9]`
unfoldable pub is_alphanumeric : ℕ → Bool
is_alphanumeric c = (leb b'a' c && leb c b'z') || (leb b'0' c && leb c b'9')

-- `[a-z0-9-]*[a-z0-9]$`
unfoldable pub ends_well : Text → Bool
ends_well [] = false
ends_well (c ∷ []) = is_alphanumeric c
ends_well (c ∷ d ∷ s) = (is_alphanumeric c || c == b'-') && ends_well (d ∷ s)

-- The expression `^[a-z0-9]([a-z0-9-]{0,61}[a-z0-9])?$`.
unfoldable pub is_label : Text → Bool
is_label [] = false
is_label (c ∷ s) = is_alphanumeric c && (s == [] || (leb (length s) 62 && ends_well s))

unfoldable pub are_labels : List Text → Bool
are_labels [] = true
are_labels (label ∷ labels) =
    not (label == [] || ltb 63 (length label)) && is_label (to_lower label) && are_labels labels

unfoldable pub is_valid_hostname : Text → Bool
is_valid_hostname hostname =
    if hostname == [] || ltb 253 (length hostname)
    then false
    else if contains_text hostname (txt "..")
        || (has_prefix hostname (txt ".") || has_suffix hostname (txt "."))
    then false
    else if ltb (length (split b'.' hostname)) 2
    then false
    else are_labels (split b'.' hostname)

-- The wildcard domain of the tenant, or that of the configuration; an empty one counts as none.
unfoldable pub base_domain : DnsSettings → ConfigDnsSettings → Option Text
base_domain tenant config =
    if not (or_empty tenant.wildcard_domain == [])
    then tenant.wildcard_domain
    else if config.wildcard_domain == []
    then none
    else some config.wildcard_domain

unfoldable pub hex_digit : ℕ → ℕ
hex_digit n = if ltb n 10 then b'0' + n else b'a' + (n - 10)

-- `hex.EncodeToString`
unfoldable pub hex_encode : Text → Text
hex_encode [] = []
hex_encode (c ∷ s) = hex_digit (c / 16) ∷ hex_digit (c % 16) ∷ hex_encode s

unfoldable pub trim_wildcard : Text → Text
trim_wildcard base = trim_prefix (trim_prefix (trim_prefix base (txt "*.")) (txt "**.")) (txt "*")

unfoldable pub timed_hostname : ℕ → Text → Text
timed_hostname now base = txt "lb-" ++ show now ++ txt "." ++ base

-- With the bytes that were read at random, under a domain without its wildcard.
unfoldable pub random_hostname : Text → ℕ → Text → Text
random_hostname bytes now base =
    let hostname = to_lower (hex_encode bytes) ++ txt "." ++ base in
    if not (is_valid_hostname base)
    then []
    else if not (is_valid_hostname hostname)
    then timed_hostname now base
    else hostname

-- Under the domain, if there is one.
unfoldable pub hostname_under : Option Text → ℕ → Option Text → Text
hostname_under random now none = []
hostname_under none now (some base) = timed_hostname now base
hostname_under (some bytes) now (some base) = random_hostname bytes now (trim_wildcard base)

-- `none` for `random` is the error of `rand.Read`; `now` is the time in seconds.
unfoldable pub generate_hostname : Option Text → ℕ → DnsSettings → ConfigDnsSettings → Text
generate_hostname random now tenant config = hostname_under random now (base_domain tenant config)

-- An explicit hostname is allowed by the tenant, or by the configuration where the tenant is silent.
unfoldable pub allows_explicit : DnsSettings → ConfigDnsSettings → Bool
allows_explicit tenant config =
    is_true tenant.allow_explicit_hostnames
    || (config.allow_explicit_hostnames && not (has_value tenant.allow_explicit_hostnames))

unfoldable pub has_wildcard : DnsSettings → ConfigDnsSettings → Bool
has_wildcard tenant config =
    not (or_empty tenant.wildcard_domain == [])
    || (not (config.wildcard_domain == []) && not (has_value tenant.wildcard_domain))

unfoldable pub should_configure_hostname : StringMap → Text → TenantSpec → ConfigSpec → Bool
should_configure_hostname annotations hostname tenant config =
    if not (hostname == [])
    then allows_explicit tenant.dns config.dns
    else elim (get annotations annotation_request_wildcard_domain) [
      | none ↦ false
      | some val ↦ if val == txt "true" then has_wildcard tenant.dns config.dns else false
    ]

abbrev pub external_dns_hostname_annotation : Text
external_dns_hostname_annotation = txt "external-dns.alpha.kubernetes.io/hostname"

abbrev pub external_dns_ttl_annotation : Text
external_dns_ttl_annotation = txt "external-dns.alpha.kubernetes.io/ttl"

abbrev pub external_dns_ttl_default : Text
external_dns_ttl_default = txt "10"

abbrev pub cert_manager_cluster_issuer_annotation : Text
cert_manager_cluster_issuer_annotation = txt "cert-manager.io/cluster-issuer"

-- The tenant's setting, or the configuration's where it has none.
unfoldable pub setting : Option Bool → Bool → Bool
setting none config = config
setting (some b) config = b

unfoldable pub add_dns : Bool → Text → Dict Text Text → Dict Text Text
add_dns enabled hostname m =
    if enabled
    then Dict.insert external_dns_ttl_annotation external_dns_ttl_default
        (Dict.insert external_dns_hostname_annotation hostname m)
    else m

unfoldable pub add_issuer : Option Text → Option Text → Dict Text Text → Dict Text Text
add_issuer (some issuer) config m = Dict.insert cert_manager_cluster_issuer_annotation issuer m
add_issuer none (some issuer) m = Dict.insert cert_manager_cluster_issuer_annotation issuer m
add_issuer none none m = m

-- The map of the caller after the call. A nil map is replaced by a new one that the caller does not
-- see, so it stays nil.
unfoldable pub add_dns_and_certificate_annotations :
    StringMap → TenantSpec → ConfigSpec → Text → Bool → StringMap
add_dns_and_certificate_annotations none tenant config hostname skip = none
add_dns_and_certificate_annotations (some m) tenant config hostname skip =
    let use_dns = setting tenant.dns.use_dns_annotations config.dns.use_dns_annotations in
    let use_certificates =
      setting tenant.dns.use_certificate_annotations config.dns.use_certificate_annotations in
    let named = add_dns use_dns hostname m in
    some (
      if not skip && use_certificates
      then add_issuer tenant.certificates.default_cluster_issuer
          config.certificates.default_cluster_issuer named
      else named)
