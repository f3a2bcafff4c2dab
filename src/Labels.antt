-- ===== src/Labels.antt =====
-- The labels of internal/kubelb/utils.go, and the names that objects have in the tenant cluster.
use kubelb_ce.Base.{◌≡◌, refl, none, some, [], false, arith}
use kubelb_ce.Base.{Bool-cases, eq_refl, inl, inr, text_eq, ◌==◌, if◌then◌else◌}
use kubelb_ce.Base.Dict
use kubelb_ce.Base.Dict.{Dict}
use kubelb_ce.Base.Text.{Text, txt}
use kubelb_ce.Api.{StringMap, ObjectMeta, Route, get, or_empty, entries}

abbrev pub label_origin_namespace : Text
label_origin_namespace = txt "kubelb.k8c.io/origin-ns"

abbrev pub label_origin_name : Text
label_origin_name = txt "kubelb.k8c.io/origin-name"

abbrev pub label_origin_resource_kind : Text
label_origin_resource_kind = txt "kubelb.k8c.io/origin-resource-kind"

abbrev pub label_tenant_name : Text
label_tenant_name = txt "kubelb.k8c.io/tenant"

abbrev pub label_managed_by : Text
label_managed_by = txt "kubelb.k8c.io/managed-by"

abbrev pub label_controller_name : Text
label_controller_name = txt "kubelb"

-- A present label wins over the name of the object, an empty one too.
unfoldable pub get_name : ObjectMeta → Text
get_name meta = elim (get meta.labels label_origin_name) [ none ↦ meta.name | some name ↦ name ]

unfoldable pub get_namespace : ObjectMeta → Text
get_namespace meta = elim (get meta.labels label_origin_namespace) [
  | none ↦ meta.namespace
  | some ns ↦ ns
]

-- The map is written in place; a nil map is made first.
unfoldable pub add_kubelb_labels : StringMap → Text → Text → Text → StringMap
add_kubelb_labels labels name namespace gvk =
    let named = Dict.insert label_origin_name name (entries labels) in
    let placed = Dict.insert label_origin_namespace namespace named in
    let managed = Dict.insert label_managed_by label_controller_name placed in
    some (if gvk == [] then managed else Dict.insert label_origin_resource_kind gvk managed)

-- The name of the route in its source cluster: from the source object, else from the label, else the
-- route's own. An empty name counts as missing.
unfoldable pub original_route_name : Route → Text
original_route_name route =
    let from_source : Text = elim route.spec.kubernetes [
      | none ↦ []
      | some k ↦ k.route.meta.name
    ] in
    let from_label = or_empty (get route.meta.labels label_origin_name) in
    if from_source == []
    then (if from_label == [] then route.meta.name else from_label)
    else from_source

-- The labels are four different texts.
distinct_labels :
    ((label_origin_name == label_origin_namespace) ≡ false)
    × ((label_origin_name == label_managed_by) ≡ false)
    × ((label_origin_name == label_origin_resource_kind) ≡ false)
    × ((label_origin_namespace == label_managed_by) ≡ false)
    × ((label_origin_namespace == label_origin_resource_kind) ≡ false)
unfolding text_eq
distinct_labels = (refl, refl, refl, refl, refl)

module _ (labels : StringMap) (name namespace gvk : Text) where
  abbrev managed : Dict Text Text
  managed = Dict.insert label_managed_by label_controller_name (
      Dict.insert label_origin_namespace namespace
        (Dict.insert label_origin_name name (entries labels)))

  pub get-add_kubelb_labels :
      (get (add_kubelb_labels labels name namespace gvk) label_origin_name ≡ some name)
      × (get (add_kubelb_labels labels name namespace gvk) label_origin_namespace ≡ some namespace)
  unfolding get add_kubelb_labels
  get-add_kubelb_labels =
      let (a, b, c, d, f) = distinct_labels in
      elim (Bool-cases (gvk == [])) [
        | inl empty ↦ rw empty (simp (Dict.lookup-insert, a, b, d, eq_refl) (ground arith))
        | inr kind ↦ rw kind (simp (Dict.lookup-insert, a, b, c, d, f, eq_refl) (ground arith))
      ]

  pub kind-add_kubelb_labels :
      (gvk == []) ≡ false
      → get (add_kubelb_labels labels name namespace gvk) label_origin_resource_kind ≡ some gvk
  unfolding get add_kubelb_labels
  kind-add_kubelb_labels kind = rw kind (simp (Dict.lookup-insert, eq_refl) (ground arith))

-- The labels that `AddKubeLBLabels` writes are the ones by which `GetName` and `GetNamespace` find
-- the names again, whatever the object was called and labelled.
pub names-add_kubelb_labels :
    (meta : ObjectMeta) (name namespace gvk : Text)
    → let labelled : ObjectMeta = record meta {
      labels = add_kubelb_labels meta.labels name namespace gvk;
    } in
      (get_name labelled ≡ name) × (get_namespace labelled ≡ namespace)
unfolding get_name get_namespace
names-add_kubelb_labels meta name namespace gvk =
    let (a, b) = get-add_kubelb_labels meta.labels name namespace gvk in
    (rw (a, get_name), rw (b, get_namespace))
