-- ===== src/Base/Frame.antt =====
-- What an action leaves alone: `f` reads a part of the state, and the action does not change it,
-- whether it returns or throws.
use mathlib.Core.Path.{◌≡◌, refl, ◌∙◌}
use mathlib.Core.List.{List, [], ◌∷◌, map}
use dist_link.Base.Exec.{
  Error, Result, ok, err, Exec, try_catch, proceed, recover, promise_all, ◌>>=◌,
}

abbrev pub Leaves : {S X A : Type 0} → (S → X) → Exec S A → Type 0
Leaves {S} f m = (s : S) → f (m s).1 ≡ f s

module _ {S X : Type 0} (f : S → X) where
  proceed-Leaves :
      {A B : Type 0} (r : Result A) (k : A → Exec S B) (s : S)
      → ((a : A) → Leaves f (k a))
      → f (proceed r s k).1 ≡ f s
  proceed-Leaves (ok a) k s h = h a s
  proceed-Leaves (err e) k s h = refl

  pub bind-Leaves :
      {A B : Type 0} (m : Exec S A) (k : A → Exec S B)
      → Leaves f m
      → ((a : A) → Leaves f (k a))
      → Leaves f (m >>= k)
  bind-Leaves m k hm hk s = proceed-Leaves (m s).0 k (m s).1 hk ∙ hm s

  recover-Leaves :
      {A : Type 0} (r : Result A) (h : Error → Exec S A) (s : S)
      → ((e : Error) → Leaves f (h e))
      → f (recover r s h).1 ≡ f s
  recover-Leaves (ok a) h s k = refl
  recover-Leaves (err e) h s k = k e s

  pub try_catch-Leaves :
      {A : Type 0} (m : Exec S A) (h : Error → Exec S A)
      → Leaves f m
      → ((e : Error) → Leaves f (h e))
      → Leaves f (try_catch m h)
  try_catch-Leaves m h hm hk s = recover-Leaves (m s).0 h (m s).1 hk ∙ hm s

  pub promise_all-Leaves :
      {I : Type 0} (m : I → Exec S Unit) (is : List I)
      → ((i : I) → Leaves f (m i))
      → Leaves f (promise_all (map m is))
  promise_all-Leaves m [] h s = refl
  promise_all-Leaves m (i ∷ is) h s = promise_all-Leaves m is h (m i s).1 ∙ h i s
