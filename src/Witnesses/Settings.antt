-- ===== src/Witnesses/Settings.antt =====
-- Annotations, hostnames and the desired state of load balancers at concrete inputs.
use kubelb_ce.Base.{
  ◌≡◌, ◌↔◌, ◌⊎◌, ◌∙◌, refl, sym, inl, inr, Bool, true, false, ◌&&◌, none, some, [], ◌∷◌, ◌++◌,
  arith,
}
use kubelb_ce.Base.{text_eq, nat_eq, ◌==◌, Option-cases}
use kubelb_ce.Base.Dict
use kubelb_ce.Base.Dict.{Dict, has_value}
use kubelb_ce.Base.Text.{Text, txt}
use kubelb_ce.Base.Strings.{to_lower}
use kubelb_ce.Api.{
  StringMap, service, AnnotationSettings, TenantSpec, ConfigSpec, DnsSettings, ConfigDnsSettings,
  Service, LoadBalancer, get, entries,
}
use kubelb_ce.Annotations.{
  last_applied, compare_annotations, merge_annotations, propagate_annotations, get_annotations,
}
use kubelb_ce.Annotations.Compare.{or_else, get-merge_annotations}
use kubelb_ce.Annotations.Propagate.{
  kept, default_of, propagate_annotations-permitted, get_annotations_unrestricted,
}
use kubelb_ce.Hostnames.{
  annotation_request_wildcard_domain, is_valid_hostname, base_domain, hex_encode, trim_wildcard,
  timed_hostname, generate_hostname, should_configure_hostname, add_dns_and_certificate_annotations,
  has_wildcard,
}
use kubelb_ce.Hostnames.Granted.{generate_hostname_valid}
use kubelb_ce.LoadBalancers.{map_load_balancer, load_balancer_is_desired_state}
use kubelb_ce.LoadBalancers.Desired.{IsAsDesired, load_balancer_is_desired_state_agrees}

&&-true : {a b : Bool} → (a && b) ≡ true → (a ≡ true) × (b ≡ true)
&&-true h = ground arith

-- Every entry of the first map is in the second.
is_sub : Dict Text Text → Dict Text Text → Bool
is_sub [] b = true
is_sub ((k, v) ∷ a) b = (elim (Dict.lookup k b) [ none ↦ false | some w ↦ v == w ]) && is_sub a b

-- An equality of maps.
deep_equal : Dict Text Text → Dict Text Text → Bool
deep_equal a b = is_sub a b && is_sub b a

lookup-is_sub :
    (a b : Dict Text Text) (k : Text) {v : Text}
    → is_sub a b ≡ true
    → Dict.lookup k a ≡ some v
    → Dict.lookup k b ≡ some v
unfolding is_sub Dict.lookup
lookup-is_sub [] b k h e = absurd (cc)
lookup-is_sub ((j, w) ∷ a) b k {v} h e = ground (arith, lookup-is_sub a b k {v = v})

deep_equal_sound :
    (a b : Dict Text Text) → deep_equal a b ≡ true → (k : Text) → Dict.lookup k a ≡ Dict.lookup k b
unfolding deep_equal
deep_equal_sound a b h k =
    let subs = &&-true h in
    elim (Option-cases (Dict.lookup k a)) [
      | inr (v, found) ↦ found ∙ sym (lookup-is_sub a b k subs.0 found)
      | inl missing ↦ elim (Option-cases (Dict.lookup k b)) [
        | inl gone ↦ missing ∙ sym gone
        | inr (v, found) ↦ absurd (cc (missing, lookup-is_sub b a k subs.1 found))
      ]
    ]

abbrev team : Text
team = txt "team"

abbrev old_annotations : StringMap
old_annotations = some ((team, txt "a") ∷ [])

abbrev new_annotations : StringMap
new_annotations = some ((team, txt "b") ∷ [])

other_key : (team == last_applied) ≡ false
unfolding text_eq
other_key = refl

nodup : Dict.NodupKeys {K = Text} {V = Text} ((team, txt "a") ∷ [])
unfolding Dict.lookup
nodup = (refl, tt)

nodup_new : Dict.NodupKeys {K = Text} {V = Text} ((team, txt "b") ∷ [])
unfolding Dict.lookup
nodup_new = (refl, tt)

get-merge_annotations_example :
    get (merge_annotations deep_equal old_annotations new_annotations) team
    ≡ or_else (get new_annotations team) (get old_annotations team)
get-merge_annotations_example =
    get-merge_annotations deep_equal deep_equal_sound old_annotations new_annotations team other_key
      nodup nodup_new

same_annotations : compare_annotations deep_equal old_annotations old_annotations ≡ true
unfolding compare_annotations deep_equal is_sub Dict.lookup text_eq
same_annotations = refl

-- Only the annotation `team` with one of two values.
abbrev restricted : AnnotationSettings
restricted = record {
  propagated_annotations = some (some ((team, txt "a, b") ∷ []));
  propagate_all_annotations = none;
  default_annotations = none;
}

abbrev unrestricted : AnnotationSettings
unrestricted = record {
  propagated_annotations = none;
  propagate_all_annotations = some true;
  default_annotations = none;
}

propagate_annotations-permitted_example :
    Dict.lookup team (propagate_annotations old_annotations restricted service)
    ≡ or_else
        (kept restricted team (Dict.lookup team (entries old_annotations)))
        (default_of restricted service team)
propagate_annotations-permitted_example =
    propagate_annotations-permitted old_annotations restricted service team refl nodup

abbrev tenant_dns : DnsSettings
tenant_dns = record {
  wildcard_domain = some (txt "*.example.com");
  allow_explicit_hostnames = none;
  use_dns_annotations = none;
  use_certificate_annotations = some true;
}

abbrev config_dns : ConfigDnsSettings
config_dns = record {
  wildcard_domain = [];
  allow_explicit_hostnames = false;
  use_dns_annotations = true;
  use_certificate_annotations = false;
}

abbrev tenant : TenantSpec
tenant = record {
  annotation_settings = restricted;
  load_balancer = record { class = none; disable = false };
  ingress = record { class = none; disable = false };
  gateway_api = record { class = none; default_gateway = none; disable = false };
  dns = tenant_dns;
  certificates = record { default_cluster_issuer = some (txt "issuer") };
}

abbrev config : ConfigSpec
config = record {
  annotation_settings = unrestricted;
  load_balancer = record { class = none; disable = false };
  ingress = record { class = none; disable = false };
  gateway_api = record { class = none; default_gateway = none; disable = false };
  dns = config_dns;
  certificates = record { default_cluster_issuer = none };
}

abbrev cost : Text
cost = txt "cost"

abbrev not_permitted : StringMap
not_permitted = some ((cost, txt "1") ∷ [])

there : Dict.lookup cost (entries not_permitted) ≡ some (txt "1")
unfolding Dict.lookup text_eq
there = refl

get_annotations_unrestricted_example :
    Dict.lookup cost (propagate_annotations not_permitted (get_annotations tenant config) service)
    ≡ some (txt "1")
get_annotations_unrestricted_example =
    get_annotations_unrestricted tenant config not_permitted service cost refl there

abbrev asking : StringMap
asking = some ((annotation_request_wildcard_domain, txt "true") ∷ [])

configured : should_configure_hostname asking [] tenant config ≡ true
unfolding should_configure_hostname has_wildcard get Dict.lookup text_eq
configured = refl

abbrev random_bytes : Text
random_bytes = 0 ∷ 255 ∷ 16 ∷ 7 ∷ 1 ∷ 2 ∷ 3 ∷ 4 ∷ []

base : base_domain tenant_dns config_dns ≡ some (txt "*.example.com")
unfolding base_domain text_eq
base = refl

generate_hostname_valid_example :
    let name = generate_hostname (some random_bytes) 5 tenant_dns config_dns in
    let short = trim_wildcard (txt "*.example.com") in
    (name ≡ [])
    ⊎ (is_valid_hostname name ≡ true)
    ⊎ (name ≡ timed_hostname 5 short)
      × (is_valid_hostname short ≡ true)
      × (is_valid_hostname (to_lower (hex_encode random_bytes) ++ txt "." ++ short) ≡ false)
generate_hostname_valid_example = generate_hostname_valid random_bytes 5 tenant_dns config_dns base

abbrev annotated : StringMap
annotated =
    add_dns_and_certificate_annotations (some (entries old_annotations)) tenant config (txt "x.org")
      false

abbrev user_service : Service
user_service = record {
  meta = record {
    name = txt "shop";
    namespace = txt "default";
    uid = txt "0a1b2c";
    labels = none;
    annotations = old_annotations;
    deletion_timestamp = none;
    finalizers = [];
  };
  type = txt "LoadBalancer";
  ports =
      record { name = []; protocol = txt "TCP"; port = 80; target_port = 8080; node_port = 30080 }
      ∷ [];
  selector = none;
  cluster_ip = [];
  class = none;
  ingress = [];
}

abbrev desired : LoadBalancer
desired = map_load_balancer user_service (txt "10.0.0.1" ∷ []) false (txt "tenant-x")

abbrev actual : LoadBalancer
actual = record desired { meta = record desired.meta { uid = txt "9" } }

load_balancer_is_desired_state_agrees_example :
    ((load_balancer_is_desired_state deep_equal actual desired ≡ true)
      ↔ IsAsDesired deep_equal actual desired)
    × ((k : Text)
        → (k == last_applied) ≡ false
        → load_balancer_is_desired_state deep_equal actual desired ≡ true
        → get actual.meta.annotations k ≡ get desired.meta.annotations k)
load_balancer_is_desired_state_agrees_example =
    load_balancer_is_desired_state_agrees deep_equal deep_equal_sound actual desired
