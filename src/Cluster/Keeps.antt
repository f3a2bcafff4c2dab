-- ===== src/Cluster/Keeps.antt =====
-- What a run leaves as it was: a view of the world that each step of a program keeps, the whole keeps.
use kubelb_ce.Base.{if◌then◌else◌, Bool, true, false, ◌≡◌, ◌∙◌, refl}
use kubelb_ce.Base.{◌∷◌}
use kubelb_ce.Cluster.{World, Write, Result, Action, ◌>>=◌}

-- What `retry.RetryOnConflict` promises: it does nothing but run its function, so it keeps what each
-- run keeps.
pub record IsRetry {S : Type 0} (retry : Action S Unit → Action S Unit) : Type 1 where
  pub keeps :
      (P : World S → Type 0) (m : Action S Unit)
      → ((w : World S) → P w → P (m w).1)
      → (w : World S) → P w
      → P (retry m w).1

module _ {S V : Type 0} (view : World S → V) where
  abbrev pub Keeps : {A : Type 0} → Action S A → Type 0
  Keeps m = (w : World S) → view (m w).1 ≡ view w

  after_result :
      {A B : Type 0} (f : A → Action S B)
      → ((a : A) → Keeps (f a))
      → (r : Result A) (w w' : World S) → view w' ≡ view w
      → view (◌>>=◌ (λ _. (r, w')) f w).1 ≡ view w
  after_result f k (Result.ok a) w w' h = k a w' ∙ h
  after_result f k (Result.err e) w w' h = h
  after_result f k Result.halt w w' h = h

  pub >>=-Keeps :
      {A B : Type 0} (m : Action S A) (f : A → Action S B)
      → Keeps m
      → ((a : A) → Keeps (f a))
      → Keeps (m >>= f)
  >>=-Keeps m f h k w = after_result f k (m w).0 w (m w).1 (h w)

  pub retry-Keeps :
      {retry : Action S Unit → Action S Unit}
      → IsRetry retry
      → (m : Action S Unit) → Keeps m
      → Keeps (retry m)
  retry-Keeps r m h w = r.keeps (λ w'. view w' ≡ view w) m (λ w' same. h w' ∙ same) w refl

-- An invariant that neither a read nor the record of a call that writes breaks.
pub record IsStable {S : Type 0} (P : World S → Type 0) : Type 0 where
  pub reads : (w : World S) (s : S) → P w → P (record w { server = s })
  pub writes :
      (w : World S) (s : S) (x : Write) → P w → P (record w { server = s; writes = x ∷ w.writes })

-- An invariant of the world that each step of a program has, the whole has.
module _ {S : Type 0} (P : World S → Type 0) where
  abbrev pub Holds : {A : Type 0} → Action S A → Type 0
  Holds m = (w : World S) → P w → P (m w).1

  after_holds :
      {A B : Type 0} (f : A → Action S B)
      → ((a : A) → Holds (f a))
      → (r : Result A) (w : World S) → P w
      → P (◌>>=◌ (λ _. (r, w)) f w).1
  after_holds f k (Result.ok a) w h = k a w h
  after_holds f k (Result.err e) w h = h
  after_holds f k Result.halt w h = h

  pub >>=-Holds :
      {A B : Type 0} (m : Action S A) (f : A → Action S B)
      → Holds m
      → ((a : A) → Holds (f a))
      → Holds (m >>= f)
  >>=-Holds m f h k w p = after_holds f k (m w).0 (m w).1 (h w p)

  pub if-Holds :
      {A : Type 0} (b : Bool) (m k : Action S A) → Holds m → Holds k → Holds (if b then m else k)
  if-Holds true m k hm hk = hm
  if-Holds false m k hm hk = hk

pub Keeps-Holds :
    {S V : Type 0} (view : World S → V) (Q : V → Type 0) {A : Type 0} (m : Action S A)
    → Keeps view m
    → Holds (λ w. Q (view w)) m
Keeps-Holds view Q m h w q = rw (h w) q
