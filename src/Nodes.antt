-- ===== src/Nodes.antt =====
-- `GenerateAddresses` and `getEndpoints` of internal/controllers/ccm/node_controller.go: the nodes of a
-- tenant's cluster as the addresses of its load balancers.
pub mod Addresses
pub mod Publish
use kubelb_ce.Base.{Bool, true, false, not, ◌&&◌, ◌||◌, Option, none, some, List, [], ◌∷◌}
use kubelb_ce.Base.{text_eq, ◌==◌, if◌then◌else◌}
use kubelb_ce.Base.Text.{Text, txt}
use kubelb_ce.Api.{EndpointAddress, default_address_name}
use kubelb_ce.ServicePorts.{text_lt}

-- A condition or an address of a node: its type and its status or value.
pub record Typed : Type 0 where
  pub type : Text
  pub value : Text

-- `corev1.Node`, of which the code reads the conditions and the addresses.
pub record Node : Type 0 where
  pub conditions : List Typed
  pub addresses : List Typed

pub record AddressesObject : Type 0 where
  pub name : Text
  pub namespace : Text
  pub addresses : List EndpointAddress

unfoldable pub is_ready : List Typed → Bool
is_ready [] = false
is_ready (c ∷ cs) = if c.type == txt "Ready" && c.value == txt "True" then true else is_ready cs

-- The last address of the type; `found` is the one before.
unfoldable pub internal_ip : Text → Text → List Typed → Text
internal_ip type found [] = found
internal_ip type found (a ∷ rs) = internal_ip type (if a.type == type then a.value else found) rs

unfoldable pub get_endpoints : Text → List Node → List Text
get_endpoints type [] = []
get_endpoints type (n ∷ nodes) =
    let rest = get_endpoints type nodes in
    if is_ready n.conditions then internal_ip type [] n.addresses ∷ rest else rest

-- The endpoints that are not empty.
unfoldable pub valid_addresses : List Text → List EndpointAddress
valid_addresses [] = []
valid_addresses (e ∷ es) =
    let rest = valid_addresses es in
    if e == [] then rest else record { ip = e; hostname = [] } ∷ rest

unfoldable pub any_valid : List Text → Bool
any_valid [] = false
any_valid (e ∷ es) = not (e == []) || any_valid es

-- `sort.Slice` by the IP, as an insertion sort. Equal addresses are equal in all fields here.
unfoldable pub insert_by_ip : EndpointAddress → List EndpointAddress → List EndpointAddress
insert_by_ip a [] = a ∷ []
insert_by_ip a (b ∷ bs) =
    let rest = insert_by_ip a bs in if text_lt b.ip a.ip then b ∷ rest else a ∷ b ∷ bs

unfoldable pub sort_by_ip : List EndpointAddress → List EndpointAddress
sort_by_ip [] = []
sort_by_ip (a ∷ rs) = insert_by_ip a (sort_by_ip rs)

-- `none` is the error that no valid address was found.
unfoldable pub generate_addresses : Text → Text → List Node → Option AddressesObject
generate_addresses type cluster_name nodes =
    if not (any_valid (get_endpoints type nodes))
    then none
    else some (record {
      name = default_address_name;
      namespace = cluster_name;
      addresses = sort_by_ip (valid_addresses (get_endpoints type nodes));
    })
