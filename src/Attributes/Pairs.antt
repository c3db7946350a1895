-- ===== src/Attributes/Pairs.antt =====
-- api/v1/attributes.py: which texts are a key and a value, and the dict of a list of such texts.
use Prim.Native.Char.{code}
use Prim.Native.String as S
use text.Mathlib.TextEquality.{Char-path}
use text.Mathlib.TextLemmas.{nil-append, cons-append}
use apmec.Prelude.{
  ◌≡◌, ◌≢◌, refl, sym, ap, ◌∙◌, ◌↔◌, String, ◌<>◌, false, Option, none, some, All, arith, nat_eq,
  ◌==◌, eq_iff, Bool-cases, inl, inr,
}
use apmec.Errors.{Result, ok}
use apmec.Text.{codes, strip, split_equals}
use apmec.Attributes.Convert.{pair_or_raise, convert_kvp_str_to_list}

-- No '=' in the text.
abbrev NoEquals : String → Type 0
NoEquals s = All (λ c. nat_eq c 61 ≡ false) (codes s)

equals_sign : (value : String) → ("=" <> value) ≡ S.◌∷◌ "=" value
equals_sign value = cons-append "=" "" value ∙ ap (λ s. S.◌∷◌ "=" s) (nil-append value)

split-equals :
    (key value : String) → NoEquals key → split_equals (key <> ("=" <> value)) ≡ (key, some value)
unfolding split_equals
split-equals S.[] value h = rw (nil-append, equals_sign) refl
split-equals (S.◌∷◌ c key) value h = rw (cons-append, h.0) (rw (split-equals key value h.1) refl)

split_sound :
    (s key : String) (value : String)
    → split_equals s ≡ (key, some value)
    → (s ≡ key <> ("=" <> value)) × NoEquals key
unfolding split_equals
split_sound S.[] key value h = absurd (cc)
split_sound (S.◌∷◌ c s) key value h = elim (Bool-cases (nat_eq (code c) 61)) [
  | inl here ↦
      let parts : ◌≡◌ {A = String × Option String} ("", some s) (key, some value) = rw here at h in
      let no_key : key ≡ "" = sym (ap (λ (x : String × Option String). x.0) parts) in
      let rest : value ≡ s = cc in
      let sign : c ≡ "=" = Char-path c "=" (ground arith) in
      (rw (no_key, nil-append, equals_sign, rest, sign) refl, rw no_key tt)
  | inr later ↦
      let (k, v) = split_equals s in
      let parts : ◌≡◌ {A = String × Option String} (S.◌∷◌ c k, v) (key, some value) =
        rw later at h in
      let first : key ≡ S.◌∷◌ c k = sym (ap (λ (x : String × Option String). x.0) parts) in
      let second : v ≡ some value = ap (λ (x : String × Option String). x.1) parts in
      let (same, no_sign) = split_sound s k value (ap (λ x. (k, x)) second) in
      (rw (first, cons-append) (ap (λ x. S.◌∷◌ c x) same), rw first (later, no_sign))
]

-- A text before the first '=' that is not blank, and a text after it; `k` and `v` are the two
-- without the whitespace around them.
pub record IsPair (datum k v : String) : Type 0 where
  pub before : String
  pub after : String
  pub parts : datum ≡ before <> ("=" <> after)
  pub first : NoEquals before
  pub key : strip before ≡ k
  not_blank : k ≢ ""
  pub value : strip after ≡ v

IsPair-found :
    (datum k v : String) (p : String × Option String)
    → split_equals datum ≡ p
    → pair_or_raise datum p ≡ ok (k, v)
    → IsPair datum k v
IsPair-found datum k v (a, none) e h = absurd (cc)
IsPair-found datum k v (a, some b) e h = elim (Bool-cases (strip a == "")) [
  | inl empty ↦ absurd (cc (rw empty at h))
  | inr some_key ↦
      let same : ◌≡◌ {A = Result (String × String)} (ok (strip a, strip b)) (ok (k, v)) =
        rw some_key at h in
      let (parts, first) = split_sound datum a b e in
      let key : strip a ≡ k = cc in
      record {
        before = a;
        after = b;
        parts = parts;
        first = first;
        key = key;
        not_blank = λ e. ground (arith, eq_iff (strip a) "", key, e);
        value = cc;
      }
]

-- `convert_kvp_str_to_list` returns a key and a value if and only if the text is a key that is not
-- blank, an '=' and a value, with or without whitespace around the two; any '=' after the first one
-- belongs to the value.
convert_kvp_str_iff :
    (datum k v : String) → (convert_kvp_str_to_list datum ≡ ok (k, v)) ↔ IsPair datum k v
unfolding convert_kvp_str_to_list
convert_kvp_str_iff datum k v = (λ h. IsPair-found datum k v (split_equals datum) refl h, back)
  where
    back : IsPair datum k v → pair_or_raise datum (split_equals datum) ≡ ok (k, v)
    back p =
        let kept : (strip p.before == "") ≡ false =
          ground (arith, eq_iff (strip p.before) "", p.key, p.not_blank) in
        let split : split_equals datum ≡ (p.before, some p.after) =
          rw p.parts (split-equals p.before p.after p.first) in
        rw (split, kept, p.key, p.value) refl
