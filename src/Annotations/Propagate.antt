-- ===== src/Annotations/Propagate.antt =====
-- `PropagateAnnotations`, `applyDefaultAnnotations` (internal/kubelb/utils.go) and `GetAnnotations`
-- (internal/controllers/kubelb/shared.go): which annotations reach the resources.
use kubelb_ce.Base.{◌≡◌, ◌∙◌, refl, inl, inr, arith, Bool, true, false, Option, none, some, [], ◌∷◌}
use kubelb_ce.Base.{ℕ, ◌||◌, List, contains, ◌==◌, nat_eq, text_eq, if◌then◌else◌, Bool-cases}
use kubelb_ce.Base.Dict
use kubelb_ce.Base.Dict.{Dict}
use kubelb_ce.Base.Strings.{split, trim_space}
use kubelb_ce.Base.Text.{Text}
use mathlib.Core.List.{map}
use kubelb_ce.Api.{
  StringMap, AnnotatedResource, all, AnnotationSettings, TenantSpec, ConfigSpec, is_true, entries,
}
use kubelb_ce.Annotations.{
  trim_all, permitted_values, allows, keep_permitted, add_defaults, defaults_for,
  apply_default_annotations, permitted, propagate_annotations, get_annotations,
}
use kubelb_ce.Annotations.Compare.{or_else}

-- An annotation passes if its key is permitted, with no value, or with a list of values separated by
-- commas of which its own is one.
abbrev pub passes : AnnotationSettings → Text → Text → Bool
passes settings k v = elim settings.propagated_annotations [
  | none ↦ false
  | some m ↦ elim (Dict.lookup k (entries m)) [
    | none ↦ false
    | some values ↦ values == [] || contains (map trim_space (split b',' values)) v
  ]
]

-- The value that stays of an annotation.
abbrev pub kept : AnnotationSettings → Text → Option Text → Option Text
kept settings k none = none
kept settings k (some v) = if passes settings k v then some v else none

-- The same, of a map of permitted annotations.
abbrev kept_of : Dict Text Text → Text → Option Text → Option Text
kept_of permitted k none = none
kept_of permitted k (some v) = elim (Dict.lookup k permitted) [
  | none ↦ none
  | some values ↦ if allows (permitted_values values) v then some v else none
]

trim_all-map : (vs : List Text) → trim_all vs ≡ map trim_space vs
unfolding trim_all
trim_all-map [] = refl
trim_all-map (_ ∷ vs) = rw (trim_all-map vs) refl

split-cons : (sep : ℕ) (s : Text) → (p : Text) × (ps : List Text) × (split sep s ≡ p ∷ ps)
unfolding split
split-cons sep [] = ([], [], refl)
split-cons sep (c ∷ s) = elim (Bool-cases (c == sep)) [
  | inl here ↦ rw here ([], split sep s, refl)
  | inr other ↦ let (p, ps, e) = split-cons sep s in rw (other, e) (c ∷ p, ps, refl)
]

allows-permitted_values :
    (values v : Text)
    → allows (permitted_values values) v
      ≡ (values == [] || contains (map trim_space (split b',' values)) v)
unfolding permitted_values allows
allows-permitted_values values v = elim (Bool-cases (values == [])) [
  | inl empty ↦ rw empty refl
  | inr full ↦
      let (p, ps, e) = split-cons b',' values in rw (full, trim_all-map (split b',' values), e) refl
]

kept_of-permitted :
    (settings : AnnotationSettings) (k : Text) (found : Option Text)
    → kept_of (permitted settings) k found ≡ kept settings k found
unfolding permitted Dict.lookup
kept_of-permitted settings k none = refl
kept_of-permitted settings k (some v) = grind (arith, allows-permitted_values)

lookup-keep_permitted :
    (allowed annotations : Dict Text Text) (k : Text)
    → Dict.NodupKeys annotations
    → Dict.lookup k (keep_permitted allowed annotations)
      ≡ kept_of allowed k (Dict.lookup k annotations)
unfolding keep_permitted Dict.lookup
lookup-keep_permitted allowed [] k u = refl
lookup-keep_permitted allowed ((j, v) ∷ annotations) k (fresh, u) =
    ground (arith, lookup-keep_permitted allowed annotations k u)

lookup-add_defaults :
    (defaults annotations : Dict Text Text) (k : Text)
    → Dict.lookup k (add_defaults annotations defaults)
      ≡ or_else (Dict.lookup k annotations) (Dict.lookup k defaults)
unfolding add_defaults Dict.lookup
lookup-add_defaults [] annotations k = ground arith
lookup-add_defaults ((j, v) ∷ defaults) annotations k = elim (Bool-cases (Dict.has j annotations)) [
  | inl there ↦
      let (w, found) = Dict.has-eq-true j annotations there in
      rw (there, lookup-add_defaults defaults annotations k) (ground arith)
  | inr missing ↦
      let absent = Dict.has-eq-false j annotations missing in
      rw
        (
          missing,
          lookup-add_defaults defaults (Dict.insert j v annotations) k,
          Dict.lookup-insert k j v annotations,
        )
        (ground arith)
]

-- The annotation that the settings ask for where the object has none.
abbrev pub default_of : AnnotationSettings → AnnotatedResource → Text → Option Text
default_of settings resource k =
    or_else (Dict.lookup k (defaults_for settings resource))
      (Dict.lookup k (defaults_for settings all))

lookup-apply_default_annotations :
    (annotations : Dict Text Text) (settings : AnnotationSettings) (resource : AnnotatedResource)
    (k : Text)
    → Dict.lookup k (apply_default_annotations annotations settings resource)
      ≡ or_else (Dict.lookup k annotations) (default_of settings resource k)
unfolding apply_default_annotations
lookup-apply_default_annotations annotations settings resource k =
    rw
      (
        lookup-add_defaults (defaults_for settings all)
            (add_defaults annotations (defaults_for settings resource)) k,
        lookup-add_defaults (defaults_for settings resource) annotations k,
      )
      (ground arith)

-- With settings that propagate all annotations, the resource gets each annotation of the object,
-- and the defaults where the object has none: first those of its kind, then those of all kinds.
pub propagate_annotations_all :
    (annotations : StringMap) (settings : AnnotationSettings) (resource : AnnotatedResource)
    (k : Text)
    → is_true settings.propagate_all_annotations ≡ true
    → Dict.lookup k (propagate_annotations annotations settings resource)
      ≡ or_else (Dict.lookup k (entries annotations)) (default_of settings resource k)
unfolding propagate_annotations
propagate_annotations_all annotations settings resource k every =
    rw every (lookup-apply_default_annotations (entries annotations) settings resource k)

-- With other settings, an annotation of the object reaches the resource with its value if and only
-- if its key is permitted, and either with no value or with a list of values separated by commas, of
-- which, without the white space around it, one is that value; where none does, the defaults follow as
-- they would without it. No key of the object's annotations is listed twice.
pub propagate_annotations-permitted :
    (annotations : StringMap) (settings : AnnotationSettings) (resource : AnnotatedResource)
    (k : Text)
    → is_true settings.propagate_all_annotations ≡ false
    → Dict.NodupKeys (entries annotations)
    → Dict.lookup k (propagate_annotations annotations settings resource)
      ≡ or_else
          (kept settings k (Dict.lookup k (entries annotations)))
          (default_of settings resource k)
unfolding propagate_annotations
propagate_annotations-permitted annotations settings resource k some_only u =
    rw
      (
        some_only,
        lookup-apply_default_annotations (keep_permitted (permitted settings) (entries annotations))
            settings resource k,
        lookup-keep_permitted (permitted settings) (entries annotations) k u,
        kept_of-permitted settings k (Dict.lookup k (entries annotations)),
      )
      refl

-- The flag of a tenant does not unset that of the configuration.
chosen :
    (t c : Option Bool)
    → is_true c ≡ true
    → is_true (if is_true t then t else if is_true c then c else none) ≡ true
chosen none c e = rw e e
chosen (some true) c e = refl
chosen (some false) c e = rw e e

-- A configuration that propagates all annotations cannot be restricted by a tenant: whatever the
-- tenant's settings permit, every annotation of the object reaches the resource unchanged.
pub get_annotations_unrestricted :
    (tenant : TenantSpec) (config : ConfigSpec) (annotations : StringMap)
    (resource : AnnotatedResource) (k : Text) {v : Text}
    → is_true config.annotation_settings.propagate_all_annotations ≡ true
    → Dict.lookup k (entries annotations) ≡ some v
    → Dict.lookup k (propagate_annotations annotations (get_annotations tenant config) resource)
      ≡ some v
unfolding get_annotations
get_annotations_unrestricted tenant config annotations resource k every found =
    propagate_annotations_all annotations (get_annotations tenant config) resource k (
      chosen tenant.annotation_settings.propagate_all_annotations
        config.annotation_settings.propagate_all_annotations every)
    ∙ rw found refl
