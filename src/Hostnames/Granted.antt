-- ===== src/Hostnames/Granted.antt =====
-- Which hostname `GenerateHostname` (internal/kubelb/loadbalancer.go) makes, and for whom
-- `ShouldConfigureHostname` asks for one.
use kubelb_ce.Base.{
  ◌≡◌, ap, ◌⊎◌, inl, inr, refl, arith, ℕ, Bool, true, false, Option, none, some, [], ◌++◌,
}
use kubelb_ce.Base.{text_eq, ◌==◌, if◌then◌else◌, Bool-cases, eq_refl}
use kubelb_ce.Base.Dict.{has_value}
use kubelb_ce.Base.Strings.{to_lower}
use kubelb_ce.Base.Text.{Text, txt}
use kubelb_ce.Api.{StringMap, DnsSettings, ConfigDnsSettings, TenantSpec, ConfigSpec, get}
use kubelb_ce.Hostnames.{
  annotation_request_wildcard_domain, is_valid_hostname, base_domain, hex_encode, trim_wildcard,
  timed_hostname, random_hostname, hostname_under, generate_hostname, has_wildcard,
  should_configure_hostname,
}

-- A wildcard domain counts for one of the two only if it does for the other.
base_of_has_wildcard :
    (tenant : DnsSettings) (config : ConfigDnsSettings)
    → has_wildcard tenant config ≡ true
    → has_value (base_domain tenant config) ≡ true
unfolding has_wildcard base_domain has_value
base_of_has_wildcard tenant config h = ground arith

-- The annotation is there, with the value that asks for a domain.
asked :
    (o : Option Text) (b : Bool)
    → (elim o [ none ↦ false | some val ↦ if val == txt "true" then b else false ]) ≡ true
    → (b ≡ true) × (o ≡ some (txt "true"))
asked none b h = absurd (cc)
asked (some val) b h = ground arith

-- Where a load balancer without an explicit hostname is to have one, there is a base domain to make
-- it from, and the load balancer asks for it by its annotation.
pub base_domain_of_should_configure :
    (annotations : StringMap) (tenant : TenantSpec) (config : ConfigSpec)
    → should_configure_hostname annotations [] tenant config ≡ true
    → (has_value (base_domain tenant.dns config.dns) ≡ true)
      × (get annotations annotation_request_wildcard_domain ≡ some (txt "true"))
unfolding should_configure_hostname
base_domain_of_should_configure annotations tenant config h =
    let (wild, found) =
      asked (get annotations annotation_request_wildcard_domain)
        (has_wildcard tenant.dns config.dns) (rw (eq_refl {A = Text} []) at h) in
    (base_of_has_wildcard tenant.dns config.dns wild, found)

random_hostname_valid :
    (bytes : Text) (now : ℕ) (base : Text)
    → let name = random_hostname bytes now base in
      (name ≡ [])
      ⊎ (is_valid_hostname name ≡ true)
      ⊎ (name ≡ timed_hostname now base)
        × (is_valid_hostname base ≡ true)
        × (is_valid_hostname (to_lower (hex_encode bytes) ++ txt "." ++ base) ≡ false)
unfolding random_hostname
random_hostname_valid bytes now base = elim (Bool-cases (is_valid_hostname base)) [
  | inr bad ↦ rw bad (inl refl)
  | inl good ↦
      elim (Bool-cases (is_valid_hostname (to_lower (hex_encode bytes) ++ txt "." ++ base))) [
        | inl fine ↦ rw (good, fine) (inr (inl fine))
        | inr bad ↦ rw (good, bad) (inr (inr (refl, refl, refl)))
      ]
]

generated :
    (bytes : Text) (now : ℕ) (tenant : DnsSettings) (config : ConfigDnsSettings) {base : Text}
    → base_domain tenant config ≡ some base
    → generate_hostname (some bytes) now tenant config
      ≡ random_hostname bytes now (trim_wildcard base)
unfolding generate_hostname hostname_under
generated bytes now tenant config h = ap (hostname_under (some bytes) now) h

-- With random bytes, the hostname is empty or valid, or else it is the one made from the time: under
-- a valid base domain below which the random name is not valid.
pub generate_hostname_valid :
    (bytes : Text) (now : ℕ) (tenant : DnsSettings) (config : ConfigDnsSettings) {base : Text}
    → base_domain tenant config ≡ some base
    → let name = generate_hostname (some bytes) now tenant config in
      let short = trim_wildcard base in
      (name ≡ [])
      ⊎ (is_valid_hostname name ≡ true)
      ⊎ (name ≡ timed_hostname now short)
        × (is_valid_hostname short ≡ true)
        × (is_valid_hostname (to_lower (hex_encode bytes) ++ txt "." ++ short) ≡ false)
generate_hostname_valid bytes now tenant config {base} h =
    rw (generated bytes now tenant config h) (random_hostname_valid bytes now (trim_wildcard base))
