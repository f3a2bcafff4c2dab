-- ===== src/Hostnames/DnsAnnotations.antt =====
-- What `AddDNSAndCertificateAnnotations` (internal/kubelb/utils.go) leaves in the caller's map.
use kubelb_ce.Base.{◌≡◌, refl, inl, inr, arith, Bool, true, false, not, ◌&&◌, Option, none, some}
use kubelb_ce.Base.{text_eq, ◌==◌, if◌then◌else◌, Bool-cases, eq_refl}
use kubelb_ce.Base.Dict
use kubelb_ce.Base.Dict.{Dict}
use kubelb_ce.Base.Text.{Text}
use kubelb_ce.Api.{TenantSpec, ConfigSpec, get}
use kubelb_ce.Hostnames.{
  external_dns_hostname_annotation, external_dns_ttl_annotation,
  cert_manager_cluster_issuer_annotation, setting, add_dns, add_issuer,
  add_dns_and_certificate_annotations,
}
use kubelb_ce.Annotations.Compare.{or_else}

distinct_annotations :
    ((external_dns_hostname_annotation == external_dns_ttl_annotation) ≡ false)
    × ((external_dns_hostname_annotation == cert_manager_cluster_issuer_annotation) ≡ false)
    × ((cert_manager_cluster_issuer_annotation == external_dns_hostname_annotation) ≡ false)
    × ((cert_manager_cluster_issuer_annotation == external_dns_ttl_annotation) ≡ false)
unfolding text_eq
distinct_annotations = (refl, refl, refl, refl)

module _ (m : Dict Text Text) where
  hostname-add_issuer :
      (tenant config : Option Text)
      → Dict.lookup external_dns_hostname_annotation (add_issuer tenant config m)
        ≡ Dict.lookup external_dns_hostname_annotation m
  unfolding add_issuer
  hostname-add_issuer (some issuer) config =
      let (a, b, c, d) = distinct_annotations in simp (Dict.lookup-insert, b) refl
  hostname-add_issuer none (some issuer) =
      let (a, b, c, d) = distinct_annotations in simp (Dict.lookup-insert, b) refl
  hostname-add_issuer none none = refl

  issuer-add_issuer :
      (tenant config : Option Text)
      → Dict.lookup cert_manager_cluster_issuer_annotation (add_issuer tenant config m)
        ≡ or_else tenant (or_else config (Dict.lookup cert_manager_cluster_issuer_annotation m))
  unfolding add_issuer
  issuer-add_issuer (some issuer) config = simp (Dict.lookup-insert, eq_refl) refl
  issuer-add_issuer none (some issuer) = simp (Dict.lookup-insert, eq_refl) refl
  issuer-add_issuer none none = ground arith

  hostname-add_dns :
      (enabled : Bool) (hostname : Text)
      → Dict.lookup external_dns_hostname_annotation (add_dns enabled hostname m)
        ≡ (if enabled then some hostname else Dict.lookup external_dns_hostname_annotation m)
  unfolding add_dns
  hostname-add_dns true hostname =
      let (a, b, c, d) = distinct_annotations in simp (Dict.lookup-insert, a, eq_refl) refl
  hostname-add_dns false hostname = refl

  issuer-add_dns :
      (enabled : Bool) (hostname : Text)
      → Dict.lookup cert_manager_cluster_issuer_annotation (add_dns enabled hostname m)
        ≡ Dict.lookup cert_manager_cluster_issuer_annotation m
  unfolding add_dns
  issuer-add_dns true hostname =
      let (a, b, c, d) = distinct_annotations in simp (Dict.lookup-insert, c, d) refl
  issuer-add_dns false hostname = refl

-- The annotations of a map that is there: the hostname is set exactly if the tenant, or else the
-- configuration, uses DNS annotations; the issuer is set exactly if certificates are not skipped,
-- are used by the tenant or else by the configuration, and one of the two names an issuer, the
-- tenant first. Otherwise both are what they were.
pub get-add_dns_and_certificate_annotations :
    (m : Dict Text Text) (tenant : TenantSpec) (config : ConfigSpec) (hostname : Text) (skip : Bool)
    → let after = add_dns_and_certificate_annotations (some m) tenant config hostname skip in
      (get after external_dns_hostname_annotation ≡ (
        if setting tenant.dns.use_dns_annotations config.dns.use_dns_annotations
        then some hostname
        else Dict.lookup external_dns_hostname_annotation m))
      × (get after cert_manager_cluster_issuer_annotation ≡ (
          if not skip
            && setting tenant.dns.use_certificate_annotations config.dns.use_certificate_annotations
          then or_else tenant.certificates.default_cluster_issuer (
              or_else config.certificates.default_cluster_issuer
                (Dict.lookup cert_manager_cluster_issuer_annotation m))
          else Dict.lookup cert_manager_cluster_issuer_annotation m))
unfolding get add_dns_and_certificate_annotations
get-add_dns_and_certificate_annotations m tenant config hostname skip =
    let use_dns = setting tenant.dns.use_dns_annotations config.dns.use_dns_annotations in
    let t = tenant.certificates.default_cluster_issuer in
    let c = config.certificates.default_cluster_issuer in
    let named = add_dns use_dns hostname m in
    elim (Bool-cases (
      not skip
      && setting tenant.dns.use_certificate_annotations config.dns.use_certificate_annotations)) [
        | inl certified ↦
            rw
              (
                certified,
                hostname-add_issuer named t c,
                issuer-add_issuer named t c,
                hostname-add_dns m use_dns hostname,
                issuer-add_dns m use_dns hostname,
              )
              (refl, refl)
        | inr bare ↦
            rw (bare, hostname-add_dns m use_dns hostname, issuer-add_dns m use_dns hostname)
              (refl, refl)
      ]
