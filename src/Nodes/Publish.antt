-- ===== src/Nodes/Publish.antt =====
-- `Reconcile` of internal/controllers/ccm/node_controller.go: the addresses of the nodes are published
-- in the cluster of the load balancers. The counters are left out.
use kubelb_ce.Base.{◌≡◌, refl, arith, Bool, false, Option, none, some, List, [], ◌∷◌}
use kubelb_ce.Base.{if◌then◌else◌}
use kubelb_ce.Base.Text.{Text}
use kubelb_ce.Api.{EndpointAddress, default_address_name}
use kubelb_ce.Cluster.{
  Kind, Client, World, Answer, Failure, Result, Action, Write, pure, raise, request, ◌>>=◌, ◌>>◌,
  try_get, list, create, update,
}
use kubelb_ce.Nodes.{Node, AddressesObject, generate_addresses, any_valid, get_endpoints}

-- No valid address is an error, and the request comes back.
abbrev generated_or_raise : {S : Type 0} → Option AddressesObject → Action S AddressesObject
generated_or_raise none = raise Failure.failed
generated_or_raise (some current) = pure current

-- `same` is `reflect.DeepEqual` on the addresses.
module _ {S : Type 0} (client kubelb_client : Client S)
    (same : List EndpointAddress → List EndpointAddress → Bool) where
  unfoldable pub publish_found : AddressesObject → Answer AddressesObject → Action S Unit
  publish_found current (Answer.object published) =
      if same published.addresses current.addresses
      then pure tt
      else update kubelb_client Kind.addresses (record published { addresses = current.addresses })
        >> pure tt
  publish_found current (Answer.failure Failure.not_found) =
      create kubelb_client Kind.addresses current >> pure tt
  publish_found current (Answer.failure Failure.conflict) = raise Failure.conflict
  publish_found current (Answer.failure Failure.failed) = raise Failure.failed

  unfoldable pub publish_addresses : Text → AddressesObject → Action S Unit
  unfolding publish_found
  publish_addresses cluster_name current =
      try_get kubelb_client Kind.addresses (request default_address_name cluster_name)
      >>= publish_found current

  unfoldable pub reconcile_nodes : Text → Text → Action S Unit
  unfolding publish_addresses
  reconcile_nodes type cluster_name = list client Kind.node none >>= λ nodes.
      generated_or_raise (generate_addresses type cluster_name nodes)
      >>= publish_addresses cluster_name

  -- The published addresses, the newest first.
  unfoldable pub published_addresses : List Write → List (List EndpointAddress)
  published_addresses [] = []
  published_addresses (Write.created Kind.addresses o none ∷ ws) =
      o.addresses ∷ published_addresses ws
  published_addresses (Write.updated Kind.addresses o none ∷ ws) =
      o.addresses ∷ published_addresses ws
  published_addresses (_ ∷ ws) = published_addresses ws

  -- What is published when addresses were found, or none were.
  abbrev pub Publishes :
      AddressesObject → Answer AddressesObject → World S → Result Unit × World S → Type 0
  Publishes current (Answer.object published) w (Result.ok _, w') =
      published_addresses w'.writes ≡ (
        if same published.addresses current.addresses
        then published_addresses w.writes
        else current.addresses ∷ published_addresses w.writes)
  Publishes current (Answer.failure f) w (Result.ok _, w') =
      (f ≡ Failure.not_found)
      × (published_addresses w'.writes ≡ current.addresses ∷ published_addresses w.writes)
  Publishes current found w (_, w') = published_addresses w'.writes ≡ published_addresses w.writes

  -- What is published of the addresses: the current ones where none were published or others were,
  -- and nothing where the published ones are the same or the step fails.
  pub publish_found-Publishes :
      (current : AddressesObject) (found : Answer AddressesObject) (w : World S)
      → Publishes current found w (publish_found current found w)
  unfolding publish_found published_addresses
  publish_found-Publishes current (Answer.object published) w = ground arith
  publish_found-Publishes current (Answer.failure Failure.not_found) w = ground arith
  publish_found-Publishes current (Answer.failure Failure.conflict) w = refl
  publish_found-Publishes current (Answer.failure Failure.failed) w = refl

  -- When no ready node has an address of the type, the run ends with an error and publishes
  -- nothing.
  pub reconcile_nodes_without_addresses :
      (type cluster_name : Text) (nodes : List Node) (s : S) (w : World S)
      → client.list Kind.node none w.server ≡ (Answer.object nodes, s)
      → any_valid (get_endpoints type nodes) ≡ false
      → reconcile_nodes type cluster_name w ≡ (Result.err Failure.failed, record w { server = s })
  unfolding reconcile_nodes generate_addresses
  reconcile_nodes_without_addresses type cluster_name nodes s w got none_valid = ground arith
