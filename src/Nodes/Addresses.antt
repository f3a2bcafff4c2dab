-- ===== src/Nodes/Addresses.antt =====
-- Which addresses `GenerateAddresses` lists.
use kubelb_ce.Base.{
  ◌≡◌, refl, arith, inl, inr, Bool, true, false, not, ◌&&◌, ◌||◌, ◌∙◌, Option, none, some, List, [],
  ◌∷◌,
}
use kubelb_ce.Base.{text_eq, ◌==◌, contains, if◌then◌else◌, Bool-cases}
use kubelb_ce.Base.Lists.{any}
use kubelb_ce.Base.Dict.{has_value}
use kubelb_ce.Base.Text.{Text, txt}
use kubelb_ce.Api.{EndpointAddress}
use kubelb_ce.Nodes.{
  Typed, Node, AddressesObject, is_ready, internal_ip, get_endpoints, valid_addresses, any_valid,
  insert_by_ip, sort_by_ip, generate_addresses,
}

unfoldable pub ips : List EndpointAddress → List Text
ips [] = []
ips (a ∷ rs) = a.ip ∷ ips rs

contains-insert_by_ip :
    (a : EndpointAddress) (rs : List EndpointAddress) (ip : Text)
    → contains (ips (insert_by_ip a rs)) ip ≡ (ip == a.ip || contains (ips rs) ip)
unfolding insert_by_ip ips
contains-insert_by_ip a [] ip = refl
contains-insert_by_ip a (b ∷ bs) ip = ground (arith, contains-insert_by_ip a bs ip)

contains-sort_by_ip :
    (rs : List EndpointAddress) (ip : Text)
    → contains (ips (sort_by_ip rs)) ip ≡ contains (ips rs) ip
unfolding sort_by_ip ips
contains-sort_by_ip [] ip = refl
contains-sort_by_ip (a ∷ rs) ip =
    ground (arith, contains-insert_by_ip a (sort_by_ip rs) ip, contains-sort_by_ip rs ip)

equal_texts : (s t : Text) → (s == t) ≡ true → s ≡ t
equal_texts s t h = ground arith

absorb : (b c : Bool) → (c && not b) ≡ ((b || c) && not b)
absorb true true = refl
absorb true false = refl
absorb false c = refl

contains-valid_addresses :
    (es : List Text) (ip : Text)
    → contains (ips (valid_addresses es)) ip ≡ (contains es ip && not (ip == []))
unfolding valid_addresses ips
contains-valid_addresses [] ip = refl
contains-valid_addresses (e ∷ es) ip = elim (Bool-cases (e == [])) [
  | inl empty ↦
      rw (empty, equal_texts e [] empty, contains-valid_addresses es ip)
        (absorb (ip == []) (contains es ip))
  | inr full ↦
      rw (full, contains-valid_addresses es ip)
        (elim (Bool-cases (ip == e)) [
          | inl same ↦ rw (same, equal_texts ip e same, full) refl
          | inr other ↦ rw (other) refl
        ])
]

-- The address of the type, the last one where there are several.
abbrev pub last_of : Text → List Typed → Option Text
last_of type [] = none
last_of type (a ∷ rs) = elim (last_of type rs) [
  | some later ↦ some later
  | none ↦ if a.type == type then some a.value else none
]

abbrev or_found : Text → Option Text → Text
or_found found none = found
or_found found (some value) = value

abbrev pub is_ready_condition : Typed → Bool
is_ready_condition c = c.type == txt "Ready" && c.value == txt "True"

-- A node that is ready and has an address of the type, with this value where it has several: the last.
abbrev pub gives : Text → (Text → Bool) → Node → Bool
gives type test n =
    any is_ready_condition n.conditions
    && elim (last_of type n.addresses) [ none ↦ false | some value ↦ test value ]

any-is_ready : (cs : List Typed) → is_ready cs ≡ any is_ready_condition cs
unfolding is_ready
any-is_ready [] = refl
any-is_ready (c ∷ cs) = ground (arith, any-is_ready cs)

internal_ip-last_of :
    (type found : Text) (rs : List Typed)
    → internal_ip type found rs ≡ or_found found (last_of type rs)
unfolding internal_ip
internal_ip-last_of type found [] = refl
internal_ip-last_of type found (a ∷ rs) =
    internal_ip-last_of type (if a.type == type then a.value else found) rs ∙ ground arith

absorb_again : (e c t : Bool) → (c && not e) ≡ (t && not e) → ((e || c) && not e) ≡ (t && not e)
absorb_again true c t h = rw (← h) (ground arith)
absorb_again false c t h = h

or_left : (a c t n : Bool) → (c && n) ≡ (t && n) → ((a || c) && n) ≡ ((a || t) && n)
or_left true c t n h = refl
or_left false c t n h = h

-- One node before others of which the statement is known.
contains-node :
    (ready : Bool) (found : Option Text) (rest : List Text) (others : Bool) (ip : Text)
    → (contains rest ip && not (ip == [])) ≡ (others && not (ip == []))
    → (contains (if ready then or_found [] found ∷ rest else rest) ip && not (ip == [])) ≡ (
        ((ready && elim found [ none ↦ false | some value ↦ ip == value ]) || others)
        && not (ip == []))
contains-node false found rest others ip h = h
contains-node true none rest others ip h = absorb_again (ip == []) (contains rest ip) others h
contains-node true (some value) rest others ip h =
    or_left (ip == value) (contains rest ip) others (not (ip == [])) h

contains-get_endpoints :
    (type : Text) (nodes : List Node) (ip : Text)
    → (contains (get_endpoints type nodes) ip && not (ip == []))
      ≡ (any (gives type (λ value. ip == value)) nodes && not (ip == []))
unfolding get_endpoints
contains-get_endpoints type [] ip = refl
contains-get_endpoints type (n ∷ nodes) ip =
    rw (any-is_ready n.conditions, internal_ip-last_of type [] n.addresses)
      (contains-node (any is_ready_condition n.conditions) (last_of type n.addresses)
        (get_endpoints type nodes) _ ip (contains-get_endpoints type nodes ip))

any_valid-get_endpoints :
    (type : Text) (nodes : List Node)
    → any_valid (get_endpoints type nodes) ≡ any (gives type (λ value. not (value == []))) nodes
unfolding get_endpoints any_valid
any_valid-get_endpoints type [] = refl
any_valid-get_endpoints type (n ∷ nodes) =
    rw (any-is_ready n.conditions, internal_ip-last_of type [] n.addresses)
      (ground (arith, any_valid-get_endpoints type nodes))

-- Of each node that is ready the last address of the type counts, if it is not empty. The addresses
-- are made exactly if some address counts, and then they list exactly those that do.
pub contains-generate_addresses :
    (type cluster_name : Text) (nodes : List Node)
    → (has_value (generate_addresses type cluster_name nodes)
        ≡ any (gives type (λ value. not (value == []))) nodes)
      × ((made : AddressesObject) (ip : Text)
          → generate_addresses type cluster_name nodes ≡ some made
          → contains (ips made.addresses) ip
            ≡ (any (gives type (λ value. ip == value)) nodes && not (ip == [])))
unfolding generate_addresses has_value
contains-generate_addresses type cluster_name nodes =
    elim (Bool-cases (any_valid (get_endpoints type nodes))) [
      | inr nothing ↦
          rw (← any_valid-get_endpoints type nodes, nothing) (refl, λ made ip h. absurd (cc))
      | inl there ↦
          rw (← any_valid-get_endpoints type nodes, there)
            (
              refl,
              λ made ip h.
                  let same : sort_by_ip (valid_addresses (get_endpoints type nodes))
                      ≡ made.addresses =
                    ground (arith, h) in
                  rw (← same, contains-sort_by_ip (valid_addresses (get_endpoints type nodes)) ip)
                    (contains-valid_addresses (get_endpoints type nodes) ip
                      ∙ contains-get_endpoints type nodes ip),
            )
    ]
