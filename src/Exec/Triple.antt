-- ===== src/Exec/Triple.antt =====
-- What holds where a method returns, of its value and of the state after it, by what held before it.
use mathlib.Core.Path.{subst}
use apmec.Prelude.{◌≡◌, refl, Bool, true, false, if◌then◌else◌}
use apmec.Errors.{Error, Result, ok, err}
use apmec.Exec.{Exec, pure, raise, lift, ◌>>=◌, bind-ok}

pub record Triple {S A : Type 0} (P : S → Type 0) (m : Exec S A) (Q : A → S → Type 0) : Type 0 where
  pub at : (s : S) → P s → (a : A) → (s' : S) → m s ≡ (ok a, s') → Q a s'

pub ok_parts :
    {S A : Type 0} {a b : A} {s t : S} → Path (Result A × S) (ok a, s) (ok b, t) → (a ≡ b) × (s ≡ t)
ok_parts e = (cc, cc)

module _ {S A : Type 0} (P : S → Type 0) (Q : A → S → Type 0) where
  pub Triple-pure : (a : A) → ((s : S) → P s → Q a s) → Triple P (pure a) Q
  unfolding pure
  Triple-pure a h = record {
    at = λ s p b s' e. let (same, after) = ok_parts e in rw (← same, ← after) (h s p);
  }

  pub Triple-raise : (e : Error) → Triple P (raise e) Q
  unfolding raise
  Triple-raise e = record { at = λ s p b s' e. cc }

  Triple-lift : (r : Result A) → ((s : S) (a : A) → P s → r ≡ ok a → Q a s) → Triple P (lift r) Q
  unfolding lift
  Triple-lift (ok a) h = record {
    at = λ s p b s' e. let (same, after) = ok_parts e in rw (← same, ← after) (h s a p refl);
  }
  Triple-lift (err x) h = record { at = λ s p b s' e. cc }

  pub Triple-if :
      (b : Bool) (m n : Exec S A)
      → (b ≡ true → Triple P m Q)
      → (b ≡ false → Triple P n Q)
      → Triple P (if b then m else n) Q
  Triple-if true m n hm hn = hm refl
  Triple-if false m n hm hn = hn refl

module _ {S A B : Type 0} (P : S → Type 0) (Q : B → S → Type 0) where
  pub Triple-bind :
      (R : A → S → Type 0) (m : Exec S A) (f : A → Exec S B)
      → Triple P m R
      → ((a : A) → Triple (R a) (f a) Q)
      → Triple P (m >>= f) Q
  Triple-bind R m f hm hf = record {
    at = λ s p b s' e.
        let (a, t, first, after) = bind-ok m f s b s' e in
        (hf a).at t (hm.at s p a t first) b s' after;
  }

  -- after a step of which nothing is asked
  pub Triple-after :
      (m : Exec S A) (f : A → Exec S B)
      → ((a : A) → Triple (λ _. Unit {0}) (f a) Q)
      → Triple P (m >>= f) Q
  Triple-after m f hf = Triple-bind (λ _ _. Unit {0}) m f (record { at = λ s p a s' e. tt }) hf

-- what does not speak of the state is known at once
Triple-known :
    {S A : Type 0} (C : Type 0) (m : Exec S A) (Q : A → S → Type 0)
    → (C → Triple (λ _. Unit {0}) m Q)
    → Triple (λ _. C) m Q
Triple-known C m Q h = record { at = λ s c a s' e. (h c).at s tt a s' e }

-- a step of a pure result, which what comes after may use
pub Triple-result :
    {S A B : Type 0} (r : Result A) (f : A → Exec S B) (Q : B → S → Type 0)
    → ((a : A) → r ≡ ok a → Triple (λ _. Unit {0}) (f a) Q)
    → Triple (λ _. Unit {0}) (lift r >>= f) Q
Triple-result r f Q h =
    Triple-bind _ Q (λ a _. r ≡ ok a) (lift r) f (Triple-lift _ _ r λ s a _ e. e)
      λ a. Triple-known _ (f a) Q (h a)

-- a step whose value has a property
pub Triple-value :
    {S A B : Type 0} (R : A → Type 0) (m : Exec S A) (f : A → Exec S B) (Q : B → S → Type 0)
    → Triple (λ _. Unit {0}) m (λ a _. R a)
    → ((a : A) → R a → Triple (λ _. Unit {0}) (f a) Q)
    → Triple (λ _. Unit {0}) (m >>= f) Q
Triple-value R m f Q hm hf =
    Triple-bind _ Q (λ a _. R a) m f hm λ a. Triple-known (R a) (f a) Q (hf a)

pub Triple-weaken :
    {S A : Type 0} (P : S → Type 0) (Q R : A → S → Type 0) (m : Exec S A)
    → Triple P m Q
    → ((a : A) (s : S) → Q a s → R a s)
    → Triple P m R
Triple-weaken P Q R m hm h = record { at = λ s p a s' e. h a s' (hm.at s p a s' e) }

-- what an action leaves as it is
pub Triple-kept :
    {S A : Type 0} (P : S → Type 0) (m : Exec S A)
    → ((s : S) → P s → P (m s).1)
    → Triple P m (λ _ s. P s)
Triple-kept P m h = record { at = λ s p a s' e. subst (λ x. P x.1) e (h s p) }
