-- ===== src/Finalizers.antt =====
-- The finalizers of the controllers, and `ContainsFinalizer`, `AddFinalizer` and `RemoveFinalizer` of
-- the controller library on the list of them.
use kubelb_ce.Base.{◌≡◌, refl, arith, true, not, ◌&&◌, ◌||◌, List, [], ◌∷◌, ◌++◌}
use kubelb_ce.Base.{text_eq, ◌==◌, contains, if◌then◌else◌}
use kubelb_ce.Base.Text.{Text, txt}

abbrev pub cleanup_finalizer : Text
cleanup_finalizer = txt "kubelb.k8c.io/cleanup"

unfoldable pub remove_finalizer : Text → List Text → List Text
remove_finalizer f [] = []
remove_finalizer f (g ∷ fs) = let rest = remove_finalizer f fs in if g == f then rest else g ∷ rest

abbrev pub add_finalizer : Text → List Text → List Text
add_finalizer f fs = if contains fs f then fs else fs ++ f ∷ []

pub contains-remove_finalizer :
    (f : Text) (fs : List Text) (g : Text)
    → contains (remove_finalizer f fs) g ≡ (contains fs g && not (g == f))
unfolding remove_finalizer
contains-remove_finalizer f [] g = refl
contains-remove_finalizer f (_ ∷ fs) g = ground (arith, contains-remove_finalizer f fs g)

contains-append :
    (fs : List Text) (f g : Text) → contains (fs ++ f ∷ []) g ≡ (contains fs g || g == f)
contains-append [] f g = ground arith
contains-append (_ ∷ fs) f g = ground (arith, contains-append fs f g)

contains_of_equal :
    (fs : List Text) (f g : Text) → (g == f) ≡ true → contains fs f ≡ true → contains fs g ≡ true
contains_of_equal fs f g same h = ground arith

pub contains-add_finalizer :
    (f : Text) (fs : List Text) (g : Text)
    → contains (add_finalizer f fs) g ≡ (contains fs g || g == f)
contains-add_finalizer f fs g = ground (arith, contains-append fs f g, contains_of_equal fs f g)
