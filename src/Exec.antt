-- ===== src/Exec.antt =====
-- Methods that change an object and may raise. What was written before a raise stays written, so
-- the state comes back beside the error too.
pub mod Triple
use mathlib.Core.Path.{fun_ext}
use apmec.Prelude.{◌≡◌, refl}
use apmec.Errors.{Error, Result, ok, err}

abbrev pub Exec {ℓ} : Type ℓ → Type ℓ → Type ℓ
Exec State Value = State → Result Value × State

module _ {ℓ} {S A : Type ℓ} where
  unfoldable pub pure : A → Exec S A
  pure a s = (ok a, s)

  unfoldable pub raise : Error → Exec S A
  raise e s = (err e, s)

  unfoldable pub lift : Result A → Exec S A
  lift r s = (r, s)

  abbrev pub handle : (Error → Exec S A) → Result A → Exec S A
  handle h (ok a) s = (ok a, s)
  handle h (err e) s = h e s

  -- try: m except: h
  unfoldable pub rescue : Exec S A → (Error → Exec S A) → Exec S A
  rescue m h s = let (r, s') = m s in handle h r s'

module _ {ℓ} {S A B : Type ℓ} where
  -- What comes after a step, by how the step ended.
  abbrev pub proceed : (A → Exec S B) → Result A × S → Result B × S
  proceed next (ok a, t) = next a t
  proceed next (err e, t) = (err e, t)

  infixl 10 ◌>>=◌ ◌>>◌
  -- opening this opens `pure`, `raise`, `lift` and `rescue` too
  unfoldable pub ◌>>=◌ : Exec S A → (A → Exec S B) → Exec S B
  unfolding pure raise lift rescue
  ◌>>=◌ step next s = proceed next (step s)

  abbrev pub ◌>>◌ : Exec S A → Exec S B → Exec S B
  step >> next = step >>= λ _. next

  -- The steps of a sequence that returns `b` in `s'`: the first one ended with `r`.
  abbrev Ran : Result A × S → (A → Exec S B) → B → S → Type ℓ
  Ran r f b s' = (a : A) × (t : S) × (r ≡ (ok a, t)) × (f a t ≡ (ok b, s'))

  proceed-ok :
      (r : Result A × S) (next : A → Exec S B) (b : B) (s' : S)
      → proceed next r ≡ (ok b, s')
      → Ran r next b s'
  proceed-ok (ok a, t) next b s' h = (a, t, refl, h)
  proceed-ok (err e, t) next b s' h = cc

  pub bind-ok :
      (step : Exec S A) (next : A → Exec S B) (s : S) (b : B) (s' : S)
      → (step >>= next) s ≡ (ok b, s')
      → Ran (step s) next b s'
  unfolding ◌>>=◌
  bind-ok step next s b s' h = proceed-ok (step s) next b s' h

module _ {ℓ} {S A B C : Type ℓ} (f : A → Exec S B) (g : B → Exec S C) where
  regroup : (r : Result A × S) → proceed g (proceed f r) ≡ proceed (λ a. f a >>= g) r
  unfolding ◌>>=◌
  regroup (ok a, t) = refl
  regroup (err e, t) = refl

  pub bind_assoc : (step : Exec S A) → (step >>= f >>= g) ≡ (step >>= λ a. f a >>= g)
  unfolding ◌>>=◌
  bind_assoc step = fun_ext λ s. regroup (step s)
