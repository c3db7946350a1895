-- ===== src/Attributes/Words.antt =====
-- api/v1/attributes.py: what `_validate_no_whitespace` lets through.
use apmec.Prelude.{
  ℕ, ap, ◌≡◌, ◌≤◌, refl, ◌↔◌, String, Bool, true, false, List, [], ◌∷◌, ◌++◌, All, arith, ltb,
  Bool-cases, inl, inr,
}
use apmec.Errors.{ok}
use apmec.Text.{codes, is_space, words_from, word_count}
use apmec.Value.{text}
use apmec.Attributes.Scalar.{validate_no_whitespace}

abbrev AllSpace : List ℕ → Type 0
AllSpace cs = All (λ c. is_space c ≡ true) cs

abbrev NoSpace : List ℕ → Type 0
NoSpace cs = All (λ c. is_space c ≡ false) cs

-- Whitespace, then no whitespace, then whitespace.
abbrev Padded : List ℕ → Type 0
Padded cs =
    (a : List ℕ) × (b : List ℕ) × (c : List ℕ) × (cs ≡ a ++ (b ++ c))
    × AllSpace a
    × NoSpace b
    × AllSpace c

no_words : (cs : List ℕ) → words_from false cs ≡ 0 → AllSpace cs
no_words [] h = tt
no_words (c ∷ cs) h = elim (Bool-cases (is_space c)) [
  | inl space ↦ (space, no_words cs (rw space at h))
  | inr other ↦ absurd (ground arith)
]

rest_of_word :
    (cs : List ℕ)
    → words_from true cs ≡ 0
    → (b : List ℕ) × (c : List ℕ) × (cs ≡ b ++ c) × NoSpace b × AllSpace c
rest_of_word [] h = ([], [], refl, tt, tt)
rest_of_word (x ∷ cs) h = elim (Bool-cases (is_space x)) [
  | inl space ↦ ([], x ∷ cs, refl, tt, (space, no_words cs (rw space at h)))
  | inr other ↦
      let (b, c, same, word, spaces) = rest_of_word cs (rw other at h) in
      (x ∷ b, c, ap (λ xs. x ∷ xs) same, (other, word), spaces)
]

padded : (cs : List ℕ) → words_from false cs ≤ 1 → Padded cs
padded [] h = ([], [], [], refl, tt, tt, tt)
padded (x ∷ cs) h = elim (Bool-cases (is_space x)) [
  | inl space ↦
      let (a, b, c, same, before, word, after) = padded cs (rw space at h) in
      (x ∷ a, b, c, ap (λ xs. x ∷ xs) same, (space, before), word, after)
  | inr other ↦
      let one_word : words_from true cs ≡ 0 = omega (arith, rw other at h) in
      let (b, c, same, word, after) = rest_of_word cs one_word in
      ([], x ∷ b, c, ap (λ xs. x ∷ xs) same, tt, (other, word), after)
]

words-spaces : (inside : Bool) (cs : List ℕ) → AllSpace cs → words_from inside cs ≡ 0
words-spaces true [] h = refl
words-spaces false [] h = refl
words-spaces true (x ∷ cs) h = rw h.0 (words-spaces false cs h.1)
words-spaces false (x ∷ cs) h = rw h.0 (words-spaces false cs h.1)

words-word : (b c : List ℕ) → NoSpace b → AllSpace c → words_from true (b ++ c) ≡ 0
words-word [] c h k = words-spaces true c k
words-word (x ∷ b) c h k = rw h.0 (words-word b c h.1 k)

words-le_one : (b c : List ℕ) → NoSpace b → AllSpace c → words_from false (b ++ c) ≤ 1
words-le_one [] c h k = omega (arith, words-spaces false c k)
words-le_one (x ∷ b) c h k = rw h.0 (omega (arith, words-word b c h.1 k))

words-prefix : (a r : List ℕ) → AllSpace a → words_from false (a ++ r) ≡ words_from false r
words-prefix [] r h = refl
words-prefix (x ∷ a) r h = rw h.0 (words-prefix a r h.1)

few_words : (cs : List ℕ) → Padded cs → words_from false cs ≤ 1
few_words cs (a, b, c, same, before, word, after) =
    rw (same, words-prefix a (b ++ c) before) (words-le_one b c word after)

-- `_validate_no_whitespace` returns a text if and only if all whitespace in it stands before or
-- after a part without any: whitespace at either end is let through.
validate_no_whitespace_iff :
    (s : String) → (validate_no_whitespace (text s) ≡ ok s) ↔ Padded (codes s)
unfolding validate_no_whitespace
validate_no_whitespace_iff s =
    (λ h. padded (codes s) (few h), λ p. rw (enough (few_words (codes s) p)) refl)
  where
    few : validate_no_whitespace (text s) ≡ ok s → word_count s ≤ 1
    few h = ground arith

    enough : word_count s ≤ 1 → ltb 1 (word_count s) ≡ false
    enough h = ground arith
