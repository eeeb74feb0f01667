-- ===== src/Common/Effects.antt =====
-- Methods that change an object and may fail: Go's pair of a result and an `error`, with the
-- object's new state beside it, since what was written before an early return stays written.
use mathlib.Core.Path.{◌≡◌, refl}
use mathlib.Core.Logic.{◌⊎◌, inl, inr}

pub data Result (E A : Type 0) : Type 0 where
  ok : A → Result E A
  err : E → Result E A

-- a callee's error is wrapped, `fmt.Errorf("…: %w", err)`
abbrev pub map_err : {E F A : Type 0} → (F → E) → Result F A → Result E A
map_err f (ok a) = ok a
map_err f (err e) = err (f e)

abbrev pub Exec : Type 0 → Type 0 → Type 0 → Type 0
Exec S E A = S → Result E A × S

module _ {S E A : Type 0} where
  -- `return value, nil`
  abbrev pub pure : A → Exec S E A
  pure a s = (ok a, s)

  -- `return nil, failure`
  abbrev pub fail : E → Exec S E A
  fail e s = (err e, s)

  -- a method that cannot fail
  abbrev pub call : (S → A × S) → Exec S E A
  call m s = let (a, s') = m s in (ok a, s')

  -- a computed result: early return on its error
  abbrev pub lift : Result E A → Exec S E A
  lift r s = (r, s)

module _ {S E : Type 0} where
  -- a method with no result
  abbrev pub modify : (S → S) → Exec S E (Unit {0})
  modify f s = (ok tt, f s)

  abbrev pub gets : {A : Type 0} → (S → A) → Exec S E A
  gets f s = (ok (f s), s)

module _ {S E A B : Type 0} where
  abbrev continue : Result E A → (A → Exec S E B) → Exec S E B
  continue (ok a) f s = f a s
  continue (err e) f s = (err e, s)

  infixl 5 ◌>>=◌ ◌>>◌
  abbrev pub ◌>>=◌ : Exec S E A → (A → Exec S E B) → Exec S E B
  ◌>>=◌ m f s = let (r, s') = m s in continue r f s'

  abbrev pub ◌>>◌ : Exec S E A → Exec S E B → Exec S E B
  m >> k = m >>= λ _. k

  pub >>=-ok :
      (m : Exec S E A) (f : A → Exec S E B) (s : S) (a : A)
      → (m s).0 ≡ ok a
      → (m >>= f) s ≡ f a (m s).1
  >>=-ok m f s a h i = continue (h i) f (m s).1

  pub >>=-returned :
      (m : Exec S E A) (f : A → Exec S E B) (s t : S) (a : A)
      → m s ≡ (ok a, t)
      → (m >>= f) s ≡ f a t
  >>=-returned m f s t a h i = continue (h i).0 f (h i).1

module _ {S E F A : Type 0} where
  -- a callee's method, its error wrapped
  abbrev pub wrapping : (F → E) → Exec S F A → Exec S E A
  wrapping f m s = let (r, s') = m s in (map_err f r, s')

module _ {S E A : Type 0} where
  -- `defer`: the clean-up runs whether the body returns a value or an error
  abbrev pub deferring : (S → S) → Exec S E A → Exec S E A
  deferring f m s = let (r, s') = m s in (r, f s')

pub Result-cases :
    {E A : Type 0} (r : Result E A) → ((a : A) × (r ≡ ok a)) ⊎ ((e : E) × (r ≡ err e))
Result-cases (ok a) = inl (a, refl)
Result-cases (err e) = inr (e, refl)
