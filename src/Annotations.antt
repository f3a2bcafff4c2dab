-- ===== src/Annotations.antt =====
-- internal/util/kubernetes/util.go, the annotation functions of internal/kubelb/utils.go, and
-- `GetAnnotations` of internal/controllers/kubelb/shared.go. The maps are values: that
-- `PropagateAnnotations` may return the map that it was given is not modelled.
pub mod Compare
pub mod Propagate
pub mod Again
use kubelb_ce.Base.{Bool, true, false, ◌||◌, not, Option, none, some, List, [], ◌∷◌}
use kubelb_ce.Base.{text_eq, ◌==◌, contains, if◌then◌else◌}
use kubelb_ce.Base.Dict
use kubelb_ce.Base.Dict.{Dict}
use kubelb_ce.Base.Strings.{split, trim_space}
use kubelb_ce.Base.Text.{Text, txt}
use kubelb_ce.Api.{
  StringMap, AnnotatedResource, all, AnnotationSettings, TenantSpec, ConfigSpec, is_true, entries,
  resource_eq,
}

-- `corev1.LastAppliedConfigAnnotation`
abbrev pub last_applied : Text
last_applied = txt "kubectl.kubernetes.io/last-applied-configuration"

-- The comparison takes `equality.Semantic.DeepEqual` as its first argument.
unfoldable pub compare_annotations :
    (Dict Text Text → Dict Text Text → Bool) → StringMap → StringMap → Bool
compare_annotations deep_equal none none = true
compare_annotations deep_equal none (some b) = false
compare_annotations deep_equal (some a) none = false
compare_annotations deep_equal (some a) (some b) =
    deep_equal a b || deep_equal (Dict.erase last_applied a) (Dict.erase last_applied b)

-- `maps.Copy(target, source)`
unfoldable pub copy_into : Dict Text Text → Dict Text Text → Dict Text Text
copy_into target [] = target
copy_into target ((k, v) ∷ source) = copy_into (Dict.insert k v target) source

unfoldable pub merge_annotations :
    (Dict Text Text → Dict Text Text → Bool) → StringMap → StringMap → StringMap
merge_annotations deep_equal existing desired =
    if compare_annotations deep_equal existing desired
    then existing
    else some (copy_into (copy_into [] (entries existing)) (entries desired))

unfoldable pub trim_all : List Text → List Text
trim_all [] = []
trim_all (v ∷ vs) = trim_space v ∷ trim_all vs

-- The values that a permitted annotation may have; the empty list permits all.
unfoldable pub permitted_values : Text → List Text
unfolding trim_all
permitted_values v = if v == [] then [] else trim_all (split b',' v)

unfoldable pub allows : List Text → Text → Bool
allows [] v = true
allows (f ∷ fs) v = contains (f ∷ fs) v

-- Of the annotations those stay whose key is permitted with their value.
unfoldable pub keep_permitted : Dict Text Text → Dict Text Text → Dict Text Text
keep_permitted permitted [] = []
keep_permitted permitted ((k, v) ∷ annotations) =
    let rest = keep_permitted permitted annotations in
    elim (Dict.lookup k permitted) [
      | none ↦ rest
      | some values ↦ if allows (permitted_values values) v then (k, v) ∷ rest else rest
    ]

-- A default is written where no annotation of the key is there.
unfoldable pub add_defaults : Dict Text Text → Dict Text Text → Dict Text Text
add_defaults annotations [] = annotations
add_defaults annotations ((k, v) ∷ defaults) =
    add_defaults (if Dict.has k annotations then annotations else Dict.insert k v annotations)
      defaults

-- The defaults of one kind of resource; a missing entry has none.
unfoldable pub defaults_for : AnnotationSettings → AnnotatedResource → Dict Text Text
defaults_for settings resource = elim settings.default_annotations [
  | none ↦ []
  | some defaults ↦ elim (Dict.lookup resource defaults) [ none ↦ [] | some m ↦ entries m ]
]

unfoldable pub apply_default_annotations :
    Dict Text Text → AnnotationSettings → AnnotatedResource → Dict Text Text
apply_default_annotations annotations settings resource =
    add_defaults (add_defaults annotations (defaults_for settings resource))
      (defaults_for settings all)

-- The map of permitted annotations; a nil pointer and a nil map permit none.
unfoldable pub permitted : AnnotationSettings → Dict Text Text
permitted settings = elim settings.propagated_annotations [ none ↦ [] | some m ↦ entries m ]

unfoldable pub propagate_annotations :
    StringMap → AnnotationSettings → AnnotatedResource → Dict Text Text
propagate_annotations annotations settings resource =
    if is_true settings.propagate_all_annotations
    then apply_default_annotations (entries annotations) settings resource
    else apply_default_annotations (keep_permitted (permitted settings) (entries annotations))
        settings resource

abbrev pub is_some {ℓ} : {A : Type ℓ} → Option A → Bool
is_some none = false
is_some (some a) = true

-- First the settings of the configuration, then those of the tenant over them. Each of the two sets
-- the flag if its flag is true, else the permitted annotations if it has any.
unfoldable pub get_annotations : TenantSpec → ConfigSpec → AnnotationSettings
get_annotations tenant config =
    let t = tenant.annotation_settings in
    let c = config.annotation_settings in
    record {
      propagate_all_annotations =
          if is_true t.propagate_all_annotations
          then t.propagate_all_annotations
          else if is_true c.propagate_all_annotations
          then c.propagate_all_annotations
          else none;
      propagated_annotations =
          if is_true t.propagate_all_annotations || not (is_some t.propagated_annotations)
          then (if is_true c.propagate_all_annotations then none else c.propagated_annotations)
          else t.propagated_annotations;
      default_annotations =
          if is_some t.default_annotations then t.default_annotations else c.default_annotations;
    }
