-- ===== src/Mec/Names.antt =====
-- mem/plugin.py: the names of actions, from the URL of an alarm to the policies that they stand for.
use Prim.Native.Char.{Char, code}
use Prim.Native.String.append.{nil, cons}
use apmec.Prelude.{
  ℕ, ap, ◌≡◌, refl, sym, ◌∙◌, ◌↔◌, String, ◌<>◌, true, false, some, List, [], ◌∷◌, ◌++◌, All,
  nat_eq, Bool-cases, inl, inr,
}
use apmec.Text.{codes, onto_first, split_on}
use apmec.Value.{Value, text, value_eq}
use apmec.Mec.Alarms.{scaling_type}
use apmec.Mec.Triggers.{name_and_action, code_dash}

-- The text does not hold the character of a code.
abbrev pub IsWithout : ℕ → String → Type 0
IsWithout sep s = All (λ c. nat_eq c sep ≡ false) (codes s)

no_more : {c : Char} {y x : String} {ys : List String} → onto_first c (y ∷ ys) ≡ x ∷ [] → ys ≡ []
no_more e = cc

module _ (sep : ℕ) where
  pub split_on-alone : (s : String) → IsWithout sep s → split_on sep s ≡ s ∷ []
  unfolding split_on
  split_on-alone String.[] h = refl
  split_on-alone (String.◌∷◌ c s) h = rw (h.0, split_on-alone s h.1) refl

  parts : (s : String) → (x : String) × (xs : List String) × (split_on sep s ≡ x ∷ xs)
  unfolding split_on
  parts String.[] = ("", [], refl)
  parts (String.◌∷◌ c s) = elim (Bool-cases (nat_eq (code c) sep)) [
    | inl mark ↦ ("", split_on sep s, rw mark refl)
    | inr other ↦ let (x, xs, e) = parts s in (String.◌∷◌ c x, xs, rw (other, e) refl)
  ]

  -- a text, and what begins with the character
  split_on-append :
      (s t : String) (ts : List String)
      → split_on sep t ≡ "" ∷ ts
      → split_on sep (s <> t) ≡ split_on sep s ++ ts
  unfolding split_on
  split_on-append String.[] t ts e = rw (nil t) e
  split_on-append (String.◌∷◌ c s) t ts e =
      let (x, xs, p) = parts s in
      let same : split_on sep (s <> t) ≡ x ∷ (xs ++ ts) =
        split_on-append s t ts e ∙ ap (λ ys. ys ++ ts) p in
      elim (Bool-cases (nat_eq (code c) sep)) [
        | inl mark ↦ rw (cons c s t, mark, split_on-append s t ts e) refl
        | inr other ↦ rw (cons c s t, other, p, same) refl
      ]

  one_part : (s x : String) → split_on sep s ≡ x ∷ [] → IsWithout sep s
  unfolding split_on
  one_part String.[] x e = tt
  one_part (String.◌∷◌ c s) x e =
      let (y, ys, p) = parts s in
      elim (Bool-cases (nat_eq (code c) sep)) [
        | inl mark ↦ absurd (cc (p, rw mark at e))
        | inr other ↦ (other, one_part s y (p ∙ ap (λ zs. y ∷ zs) (no_more (rw (other, p) at e))))
      ]

  split_on-mark :
      (c : Char) (t : String)
      → nat_eq (code c) sep ≡ true
      → split_on sep (String.◌∷◌ c String.[] <> t) ≡ "" ∷ split_on sep t
  unfolding split_on
  split_on-mark c t h = rw (cons c String.[] t, nil t, h) refl

split-scaled :
    (cp : Value) → split_on code_dash ("-" <> scaling_type cp) ≡ "" ∷ scaling_type cp ∷ []
unfolding split_on
split-scaled cp = elim (Bool-cases (value_eq cp (text "gt"))) [
  | inl greater ↦ rw greater refl
  | inr other ↦ rw other refl
]

two_parts :
    (xs : List String) (name direction : String)
    → name_and_action (xs ++ (direction ∷ [])) ≡ some (name, direction)
    → xs ≡ name ∷ []
two_parts [] name direction e = cc
two_parts (x ∷ []) name direction e = cc
two_parts (x ∷ y ∷ []) name direction e = cc
two_parts (x ∷ y ∷ z ∷ zs) name direction e = cc

pub scaling_name_iff :
    (name : String) (cp : Value)
    → (name_and_action (split_on code_dash (name <> ("-" <> scaling_type cp)))
        ≡ some (name, scaling_type cp))
      ↔ IsWithout code_dash name
scaling_name_iff name cp =
    let split =
      split_on-append code_dash name ("-" <> scaling_type cp) (scaling_type cp ∷ [])
        (split-scaled cp) in
    (
      λ e. one_part code_dash name name (
          two_parts (split_on code_dash name) name (scaling_type cp)
            (ap name_and_action (sym split) ∙ e)),
      λ h.
          ap name_and_action
            (split ∙ ap (λ xs. xs ++ (scaling_type cp ∷ [])) (split_on-alone code_dash name h)),
    )
