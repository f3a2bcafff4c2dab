-- ===== src/Witnesses/Equality.antt =====
-- A comparison of maps, for the theorems that take one from the library.
use kubelb_ce.Base.{
  ◌≡◌, ◌∙◌, refl, sym, arith, Bool, true, false, ◌&&◌, Option, none, some, List, [], ◌∷◌, inl, inr,
  Bool-cases,
}
use kubelb_ce.Base.{text_eq, ◌==◌, contains, eq_refl}
use kubelb_ce.Base.Dict
use kubelb_ce.Base.Dict.{Dict}
use kubelb_ce.Base.Text.{Text}

same_value : Option Text → Option Text → Bool
same_value none none = true
same_value none (some w) = false
same_value (some v) none = false
same_value (some v) (some w) = v == w

same_value-eq : (x y : Option Text) → same_value x y ≡ true → x ≡ y
unfolding same_value
same_value-eq none none h = refl
same_value-eq none (some w) h = absurd (cc)
same_value-eq (some v) none h = absurd (cc)
same_value-eq (some v) (some w) h = ground arith

same_value_refl : (x : Option Text) → same_value x x ≡ true
unfolding same_value
same_value_refl none = refl
same_value_refl (some v) = eq_refl v

keys_of : Dict Text Text → List Text
keys_of [] = []
keys_of ((k, v) ∷ d) = k ∷ keys_of d

agree_at : List Text → Dict Text Text → Dict Text Text → Bool
agree_at [] a b = true
agree_at (k ∷ ks) a b = same_value (Dict.lookup k a) (Dict.lookup k b) && agree_at ks a b

pub same_entries : Dict Text Text → Dict Text Text → Bool
same_entries a b = agree_at (keys_of a) a b && agree_at (keys_of b) a b

agree_at-eq :
    (ks : List Text) (a b : Dict Text Text) (k : Text)
    → agree_at ks a b ≡ true
    → contains ks k ≡ true
    → Dict.lookup k a ≡ Dict.lookup k b
unfolding agree_at
agree_at-eq [] a b k h m = absurd (cc)
agree_at-eq (j ∷ ks) a b k h m = elim (Bool-cases (k == j)) [
  | inl same ↦
      let e : k ≡ j = ground arith in
      rw e (same_value-eq (Dict.lookup j a) (Dict.lookup j b) (ground arith))
  | inr other ↦ agree_at-eq ks a b k (ground arith) (ground arith)
]

agree_at_refl :
    (ks : List Text) (a b : Dict Text Text)
    → ((k : Text) → Dict.lookup k a ≡ Dict.lookup k b)
    → agree_at ks a b ≡ true
unfolding agree_at
agree_at_refl [] a b h = refl
agree_at_refl (k ∷ ks) a b h =
    let same : same_value (Dict.lookup k a) (Dict.lookup k b) ≡ true =
      rw (h k) (same_value_refl (Dict.lookup k b)) in
    ground (arith, same, agree_at_refl ks a b h)

lookup_of_missing :
    (d : Dict Text Text) (k : Text) → contains (keys_of d) k ≡ false → Dict.lookup k d ≡ none
unfolding keys_of Dict.lookup
lookup_of_missing [] k h = refl
lookup_of_missing ((j, v) ∷ d) k h = ground (arith, lookup_of_missing d k (ground arith))

pub same_entries_sound :
    (a b : Dict Text Text)
    → same_entries a b ≡ true
    → (k : Text) → Dict.lookup k a ≡ Dict.lookup k b
unfolding same_entries
same_entries_sound a b h k = elim (Bool-cases (contains (keys_of a) k)) [
  | inl first ↦ agree_at-eq (keys_of a) a b k (ground arith) first
  | inr missing ↦ elim (Bool-cases (contains (keys_of b) k)) [
    | inl second ↦ agree_at-eq (keys_of b) a b k (ground arith) second
    | inr absent ↦ lookup_of_missing a k missing ∙ sym (lookup_of_missing b k absent)
  ]
]

pub same_entries_complete :
    (a b : Dict Text Text)
    → ((k : Text) → Dict.lookup k a ≡ Dict.lookup k b)
    → same_entries a b ≡ true
unfolding same_entries
same_entries_complete a b h =
    ground (arith, agree_at_refl (keys_of a) a b h, agree_at_refl (keys_of b) a b h)
