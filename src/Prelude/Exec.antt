-- ===== src/Prelude/Exec.antt =====
-- Methods that change a state and may fail. The state comes back beside an error too.
use mathlib.Core.Path.{◌≡◌}
use lazy_db.Prelude.Res.{Res, Error, ok, err, fatal}

abbrev pub Exec {ℓ} : Type ℓ → Type ℓ → Type ℓ
Exec S A = S → Res A × S

module _ {ℓ} {S A : Type ℓ} where
  abbrev pub pure : A → Exec S A
  pure a s = (ok a, s)

  abbrev pub raise : Error → Exec S A
  raise e s = (err e, s)

  abbrev pub lift : Res A → Exec S A
  lift r s = (r, s)

  abbrev pub gets : (S → A) → Exec S A
  gets f s = (ok (f s), s)

-- The process ends where a call returned an error that the code turns into `log.Fatal`.
abbrev pub or_fatal {ℓ} : {A : Type ℓ} → Res A → Res A
or_fatal (ok a) = ok a
or_fatal (err e) = fatal
or_fatal fatal = fatal

module _ {ℓ} {S A B : Type ℓ} where
  abbrev pub continue : Res A → (A → Exec S B) → Exec S B
  continue (ok a) f s = f a s
  continue (err e) f s = (err e, s)
  continue fatal f s = (fatal, s)

  infixl 5 ◌>>=◌ ◌>>◌
  abbrev pub ◌>>=◌ : Exec S A → (A → Exec S B) → Exec S B
  ◌>>=◌ m f s = let (r, s') = m s in continue r f s'

  abbrev pub ◌>>◌ : Exec S A → Exec S B → Exec S B
  m >> n = m >>= λ _. n

  -- A step that succeeds hands its value and state to the rest.
  pub bind-ok :
      (m : Exec S A) (f : A → Exec S B) (s s' : S) (a : A) → m s ≡ (ok a, s') → (m >>= f) s ≡ f a s'
  bind-ok m f s s' a e = rw e

  pub bind-err :
      (m : Exec S A) (f : A → Exec S B) (s s' : S) (x : Error)
      → m s ≡ (err x, s')
      → (m >>= f) s ≡ (err x, s')
  bind-err m f s s' x e = rw e
