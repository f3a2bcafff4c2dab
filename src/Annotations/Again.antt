-- ===== src/Annotations/Again.antt =====
-- A merge of annotations (`MergeAnnotations`, internal/util/kubernetes/util.go) done again.
use kubelb_ce.Base.{
  ◌≡◌, ◌∙◌, refl, sym, inl, inr, arith, Bool, true, false, Option, none, some, [], ◌∷◌,
}
use kubelb_ce.Base.{text_eq, ◌==◌, if◌then◌else◌, Bool-cases, Option-cases, ◌≢◌}
use kubelb_ce.Base.Dict
use kubelb_ce.Base.Dict.{Dict}
use kubelb_ce.Base.Text.{Text}
use kubelb_ce.Api.{StringMap, entries, get}
use kubelb_ce.Annotations.{last_applied, compare_annotations, copy_into, merge_annotations}
use kubelb_ce.Annotations.Compare.{or_else, get-merge_annotations}

copy_into-NodupKeys :
    (target source : Dict Text Text)
    → Dict.NodupKeys target
    → Dict.NodupKeys (copy_into target source)
unfolding copy_into
copy_into-NodupKeys target [] u = u
copy_into-NodupKeys target ((k, v) ∷ source) u =
    copy_into-NodupKeys (Dict.insert k v target) source (Dict.insert-NodupKeys k v target u)

twice : (x y z : Option Text) → x ≡ or_else y z → x ≡ or_else y x
twice x none z h = refl
twice x (some v) z h = h

module _ (deep_equal : Dict Text Text → Dict Text Text → Bool)
    (sound : (a b : Dict Text Text)
      → deep_equal a b ≡ true
      → (k : Text) → Dict.lookup k a ≡ Dict.lookup k b)
    (complete : (a b : Dict Text Text)
      → ((k : Text) → Dict.lookup k a ≡ Dict.lookup k b)
      → deep_equal a b ≡ true) where
  compare_of_same :
      (a b : Dict Text Text)
      → ((k : Text) → (k == last_applied) ≡ false → Dict.lookup k a ≡ Dict.lookup k b)
      → compare_annotations deep_equal (some a) (some b) ≡ true
  unfolding compare_annotations
  compare_of_same a b h =
      let pruned : deep_equal (Dict.erase last_applied a) (Dict.erase last_applied b) ≡ true =
        complete _ _ (λ k.
          Dict.lookup-erase k last_applied a
          ∙ erased k
          ∙ sym (Dict.lookup-erase k last_applied b)) in
      ground (arith, pruned)
    where
      erased :
          (k : Text)
          → (if k == last_applied then none else Dict.lookup k a)
            ≡ (if k == last_applied then none else Dict.lookup k b)
      erased k = elim (Bool-cases (k == last_applied)) [
        | inl same ↦ rw same refl
        | inr other ↦ rw other (h k other)
      ]

  merged_twice :
      (m d : Dict Text Text)
      → Dict.NodupKeys m
      → Dict.NodupKeys d
      → ((k : Text)
          → (k == last_applied) ≡ false
          → Dict.lookup k m ≡ or_else (Dict.lookup k d) (Dict.lookup k m))
      → compare_annotations deep_equal (some m) (merge_annotations deep_equal (some m) (some d))
        ≡ true
  unfolding merge_annotations Dict.lookup get
  merged_twice m d um ud h = elim (Bool-cases (compare_annotations deep_equal (some m) (some d))) [
    | inl same ↦ rw same (compare_of_same m m (λ k other. refl))
    | inr differ ↦ rw differ (
        compare_of_same m _ (λ k other.
          h k other
          ∙ sym (
              rw differ at
                (get-merge_annotations deep_equal sound (some m) (some d) k other um ud))))
  ]

  merge_annotations-NodupKeys :
      (existing : StringMap) (desired : Dict Text Text)
      → Dict.NodupKeys (entries existing)
      → Dict.NodupKeys (entries (merge_annotations deep_equal existing (some desired)))
  unfolding merge_annotations
  merge_annotations-NodupKeys existing desired u =
      elim (Bool-cases (compare_annotations deep_equal existing (some desired))) [
        | inl same ↦ rw same u
        | inr differ ↦ rw differ (
            copy_into-NodupKeys (copy_into [] (entries existing)) desired
              (copy_into-NodupKeys [] (entries existing) tt))
      ]

  merged_there :
      (existing : StringMap) (desired : Dict Text Text)
      → merge_annotations deep_equal existing (some desired) ≢ none
  unfolding merge_annotations compare_annotations
  merged_there none desired h = cc
  merged_there (some m) desired h = ground arith

  -- A merge that is done again, with the same desired annotations, makes no difference.
  pub merge_annotations_again :
      (existing : StringMap) (desired : Dict Text Text)
      → Dict.NodupKeys (entries existing)
      → Dict.NodupKeys desired
      → let merged = merge_annotations deep_equal existing (some desired) in
        compare_annotations deep_equal merged (merge_annotations deep_equal merged (some desired))
        ≡ true
  unfolding Dict.lookup get
  merge_annotations_again existing desired u v =
      let merged = merge_annotations deep_equal existing (some desired) in
      elim (Option-cases merged) [
        | inl nothing ↦ absurd (merged_there existing desired nothing)
        | inr (m, e) ↦
            let held : (k : Text)
                → (k == last_applied) ≡ false
                → get (some m) k ≡ or_else (get (some desired) k) (get existing k) =
              λ k other.
                rw e at
                  (get-merge_annotations deep_equal sound existing (some desired) k other u v) in
            rw e (
              merged_twice m desired (rw e at (merge_annotations-NodupKeys existing desired u)) v
                (λ k other.
                  twice (get (some m) k) (get (some desired) k) (get existing k) (held k other)))
      ]
