-- ===== src/Annotations/Compare.antt =====
-- `CompareAnnotations` and `MergeAnnotations` of internal/util/kubernetes/util.go: what equal
-- annotations agree on, and what a merge holds.
use kubelb_ce.Base.{
  ◌≡◌, ◌∙◌, refl, sym, inl, inr, arith, Bool, true, false, Option, none, some, [], ◌∷◌,
}
use kubelb_ce.Base.{text_eq, ◌==◌, if◌then◌else◌, Bool-cases}
use kubelb_ce.Base.Dict
use kubelb_ce.Base.Dict.{Dict}
use kubelb_ce.Base.Text.{Text}
use kubelb_ce.Api.{StringMap, get, entries}
use kubelb_ce.Annotations.{last_applied, compare_annotations, copy_into, merge_annotations}

-- A value is taken from the source if the source has one.
abbrev pub or_else : Option Text → Option Text → Option Text
or_else none other = other
or_else (some v) other = some v

or_else-none : (x y : Option Text) → or_else x (or_else y none) ≡ or_else x y
or_else-none x none = refl
or_else-none x (some v) = refl

-- Copying a map over another one: the copied entries win.
lookup-copy_into :
    (source : Dict Text Text) (target : Dict Text Text) (k : Text)
    → Dict.NodupKeys source
    → Dict.lookup k (copy_into target source)
      ≡ or_else (Dict.lookup k source) (Dict.lookup k target)
unfolding copy_into Dict.lookup
lookup-copy_into [] target k u = refl
lookup-copy_into ((j, v) ∷ source) target k (fresh, u) =
    ground
      (arith, lookup-copy_into source (Dict.insert j v target) k u, Dict.lookup-insert k j v target)

drop_if :
    {b : Bool} {x y : Option Text}
    → (if b then none else x) ≡ (if b then none else y)
    → b ≡ false
    → x ≡ y
drop_if e h = rw h at e

or_else_same : {x : Option Text} (y : Option Text) → x ≡ y → x ≡ or_else y x
or_else_same none e = refl
or_else_same (some v) e = e

get-entries : (m : StringMap) (k : Text) → get m k ≡ Dict.lookup k (entries m)
unfolding get Dict.lookup
get-entries none k = refl
get-entries (some m) k = refl

-- The lookups in a copy of two maps into a new one.
lookup_copies :
    (a b : StringMap) (k : Text)
    → Dict.NodupKeys (entries a)
    → Dict.NodupKeys (entries b)
    → Dict.lookup k (copy_into (copy_into [] (entries a)) (entries b)) ≡ or_else (get b k) (get a k)
lookup_copies a b k u v =
    rw
      (
        lookup-copy_into (entries b) (copy_into [] (entries a)) k v,
        lookup-copy_into (entries a) [] k u,
        Dict.lookup-nil k,
        get-entries a k,
        get-entries b k,
      )
      (or_else-none (Dict.lookup k (entries b)) (Dict.lookup k (entries a)))

module _ (deep_equal : Dict Text Text → Dict Text Text → Bool)
    (sound : (a b : Dict Text Text)
      → deep_equal a b ≡ true
      → (k : Text) → Dict.lookup k a ≡ Dict.lookup k b) where
  -- Two annotation maps that compare as equal hold the same value at every key, the annotation of
  -- the last applied configuration set aside.
  pub get_of_compare_annotations :
      (a b : StringMap) (k : Text)
      → (k == last_applied) ≡ false
      → compare_annotations deep_equal a b ≡ true
      → get a k ≡ get b k
  unfolding compare_annotations get
  get_of_compare_annotations none none k other h = refl
  get_of_compare_annotations (some a) none k other h = absurd (cc)
  get_of_compare_annotations none (some b) k other h = absurd (cc)
  get_of_compare_annotations (some a) (some b) k other h = elim (Bool-cases (deep_equal a b)) [
    | inl same ↦ sound a b same k
    | inr differ ↦
        let pruned =
          sound (Dict.erase last_applied a) (Dict.erase last_applied b) (rw differ at h) k in
        drop_if
          (sym (Dict.lookup-erase k last_applied a) ∙ pruned ∙ Dict.lookup-erase k last_applied b)
          other
  ]

  -- A merge with desired annotations holds each of them, and of the existing annotations it keeps
  -- those that are not desired. The annotation of the last applied configuration is set aside: it
  -- does not count as a difference. The two maps list no key twice, as no Go map does.
  pub get-merge_annotations :
      (existing desired : StringMap) (k : Text)
      → (k == last_applied) ≡ false
      → Dict.NodupKeys (entries existing)
      → Dict.NodupKeys (entries desired)
      → get (merge_annotations deep_equal existing desired) k
        ≡ or_else (get desired k) (get existing k)
  unfolding merge_annotations get
  get-merge_annotations existing desired k other u v =
      elim (Bool-cases (compare_annotations deep_equal existing desired)) [
        | inl same ↦ rw same (
            or_else_same (get desired k) (get_of_compare_annotations existing desired k other same))
        | inr differ ↦ rw differ (lookup_copies existing desired k u v)
      ]
