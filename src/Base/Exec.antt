-- ===== src/Base/Exec.antt =====
-- Handlers that change state and may throw: a state passing with a result. What was written before
-- a throw stays written.
use mathlib.Core.List.{List, [], ◌∷◌}
use mathlib.Core.Path.{◌≡◌, refl}
use mathlib.Core.Logic.{◌⊎◌, inl, inr}
use mathlib.Core.Bool.{Bool, true, false}

-- The exceptions of the services, by class; `generic` is a plain `Error`.
pub data Error : Type 0 where
  bad_request not_found conflict unauthorized internal generic throttled : Error

pub data Result {ℓ} (A : Type ℓ) : Type ℓ where
  ok : A → Result A
  err : Error → Result A

abbrev pub Exec {ℓ} : Type ℓ → Type ℓ → Type ℓ
Exec S A = S → Result A × S

abbrev pub proceed {ℓ} : {S A B : Type ℓ} → Result A → S → (A → Exec S B) → Result B × S
proceed (ok a) s f = f a s
proceed (err e) s f = (err e, s)

module _ {ℓ} {S A : Type ℓ} where
  abbrev pub pure : A → Exec S A
  pure a s = (ok a, s)

  abbrev pub throw : Error → Exec S A
  throw e s = (err e, s)

  abbrev pub gets : (S → A) → Exec S A
  gets f s = (ok (f s), s)

  -- `try { m } catch (e) { h e }`
  abbrev pub recover : Result A → S → (Error → Exec S A) → Result A × S
  recover (ok a) s h = (ok a, s)
  recover (err e) s h = h e s

  abbrev pub try_catch : Exec S A → (Error → Exec S A) → Exec S A
  try_catch m h s = recover (m s).0 (m s).1 h

infixl 5 ◌>>=◌ ◌>>◌
abbrev pub ◌>>=◌ {ℓ} : {S A B : Type ℓ} → Exec S A → (A → Exec S B) → Exec S B
◌>>=◌ m f s = proceed (m s).0 (m s).1 f

abbrev pub ◌>>◌ {ℓ} : {S A B : Type ℓ} → Exec S A → Exec S B → Exec S B
m >> k = m >>= λ _. k

-- An update of the state with no result.
abbrev pub modify : {S : Type 0} → (S → S) → Exec S (Unit {0})
modify f s = (ok tt, f s)

abbrev pub guard : {S : Type 0} → Bool → Error → Exec S (Unit {0})
guard true e s = (ok tt, s)
guard false e s = (err e, s)

abbrev first_error : Result (Unit {0}) → Result (Unit {0}) → Result (Unit {0})
first_error (ok _) q = q
first_error (err e) q = err e

-- `Promise.all`: every call is made, and it rejects with an error if one of them did.
abbrev pub promise_all : {S : Type 0} → List (Exec S (Unit {0})) → Exec S (Unit {0})
promise_all [] s = (ok tt, s)
promise_all (m ∷ ms) s =
    (first_error (m s).0 (promise_all ms (m s).1).0, (promise_all ms (m s).1).1)

abbrev pair_results : {A B : Type 0} → Result A → Result B → Result (A × B)
pair_results (ok a) (ok b) = ok (a, b)
pair_results (ok a) (err e) = err e
pair_results (err e) q = err e

-- `Promise.all` of two queries.
abbrev pub promise_both : {S A B : Type 0} → Exec S A → Exec S B → Exec S (A × B)
promise_both m n s = (pair_results (m s).0 (n (m s).1).0, (n (m s).1).1)

first_error-ok : (r q : Result (Unit {0})) → first_error r q ≡ ok tt → (r ≡ ok tt) × (q ≡ ok tt)
first_error-ok (ok tt) q h = (refl, h)
first_error-ok (err e) q h = cc

-- When `Promise.all` resolves, each of its calls has.
pub promise_all-ok :
    {S : Type 0} (m : Exec S (Unit {0})) (ms : List (Exec S (Unit {0}))) (s : S)
    → (promise_all (m ∷ ms) s).0 ≡ ok tt
    → ((m s).0 ≡ ok tt) × ((promise_all ms (m s).1).0 ≡ ok tt)
promise_all-ok m ms s h = first_error-ok (m s).0 (promise_all ms (m s).1).0 h

pub Result-cases {ℓ} :
    {A : Type ℓ} (r : Result A) → ((a : A) × (r ≡ ok a)) ⊎ ((e : Error) × (r ≡ err e))
Result-cases (ok a) = inl (a, refl)
Result-cases (err e) = inr (e, refl)

-- A `try` is its body where that returns, and else its handler after what the body has written.
pub try_catch-ok :
    {S A : Type 0} (m : Exec S A) (h : Error → Exec S A) (s : S) (a : A)
    → (m s).0 ≡ ok a
    → try_catch m h s ≡ m s
try_catch-ok m h s a q = rw q

pub try_catch-err :
    {S A : Type 0} (m : Exec S A) (h : Error → Exec S A) (s : S) (e : Error)
    → (m s).0 ≡ err e
    → try_catch m h s ≡ h e (m s).1
try_catch-err m h s e q = rw q

-- A handler that only throws again leaves the state as the body has left it.
pub recover-throw :
    {S A : Type 0} (r : Result A) (s : S) (f : Error → Error)
    → (recover r s (λ e. throw (f e))).1 ≡ s
recover-throw (ok a) s f = refl
recover-throw (err e) s f = refl

-- An action on a part of the state.
abbrev pub zoom : {S T A : Type 0} → (S → T) → (T → S → S) → Exec T A → Exec S A
zoom part replace m s = ((m (part s)).0, replace (m (part s)).1 s)

-- A handler that returns makes the whole return.
pub recover-ok :
    {S : Type 0} (r : Result (Unit {0})) (s : S) (h : Error → Exec S Unit)
    → ((e : Error) (t : S) → (h e t).0 ≡ ok tt)
    → (recover r s h).0 ≡ ok tt
recover-ok (ok tt) s h returns = refl
recover-ok (err e) s h returns = returns e s
