-- ===== src/Keys.antt =====
-- The patterns of internal/kubelb/utils.go by which endpoints, ports and Envoy resources are keyed.
pub mod Decimal
pub mod Injective
use kubelb_ce.Base.{ℕ, ◌++◌}
use kubelb_ce.Base.Text.{Text, txt, show}

-- "%s-%s-ep-%d"
unfoldable pub endpoint_key : Text → Text → ℕ → Text
endpoint_key namespace name i = namespace ++ (txt "-" ++ (name ++ (txt "-ep-" ++ show i)))

-- "tenant-%s-route-%s-%s-%s"
unfoldable pub route_endpoint_key : Text → Text → Text → Text → Text
route_endpoint_key namespace svc_namespace svc_name route_name =
    txt "tenant-"
    ++ (namespace
        ++ (txt "-route-" ++ (svc_namespace ++ (txt "-" ++ (svc_name ++ (txt "-" ++ route_name))))))

-- "%v-%s"
unfoldable pub listener_key : ℕ → Text → Text
listener_key port protocol = show port ++ (txt "-" ++ protocol)

-- "%s-%s-ep-%d-port-%d-%s"
unfoldable pub resource_identifier : Text → Text → ℕ → ℕ → Text → Text
resource_identifier namespace name i port protocol =
    namespace
    ++ (txt "-"
        ++ (name
            ++ (txt "-ep-" ++ (show i ++ (txt "-port-" ++ (show port ++ (txt "-" ++ protocol)))))))

-- "tenant-%s-route-%s-%s-%s-svc-%s-port-%d-%s"
unfoldable pub route_port_identifier : Text → Text → Text → Text → Text → ℕ → Text → Text
route_port_identifier namespace svc_namespace svc_name route_name svc_uid port protocol =
    txt "tenant-"
    ++ (namespace
        ++ (txt "-route-"
            ++ (svc_namespace
                ++ (txt "-"
                    ++ (svc_name
                        ++ (txt "-"
                            ++ (route_name
                                ++ (txt "-svc-"
                                    ++ (svc_uid
                                        ++ (txt "-port-"
                                            ++ (show port ++ (txt "-" ++ protocol))))))))))))

-- "%s/%s"
unfoldable pub service_map_key : Text → Text → Text
service_map_key namespace name = namespace ++ (txt "/" ++ name)
