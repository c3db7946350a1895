-- ===== src/Text.antt =====
-- The methods of Python's `str` and the function `int` that the code calls, on code points.
use Prim.Native.Char.{Char, code}
use Prim.Native.String.{String}
use apmec.Prelude.{
  ℕ, zero, suc, ◌+◌, ◌-◌, ◌*◌, Bool, true, false, Option, none, some, List, [], ◌∷◌, ◌&&◌, ◌||◌,
  nat_eq, leb, ltb, any, if◌then◌else◌, ◌<>◌, ◌<◌, ◌/◌, ◌%◌, ◌≡◌, refl, arith, Bool-cases, inl, inr,
}
use apmec.Value.{ℤ, pos, negsuc}

-- str.isspace of one character
abbrev pub is_space : ℕ → Bool
is_space c =
    leb 9 c && leb c 13
    || (leb 28 c && leb c 32
        || (any (nat_eq c) (133 ∷ 160 ∷ 5760 ∷ [])
            || (leb 8192 c && leb c 8202
                || any (nat_eq c) (8232 ∷ 8233 ∷ 8239 ∷ 8287 ∷ 12288 ∷ []))))

abbrev pub codes : String → List ℕ
codes String.[] = []
codes (String.◌∷◌ c s) = code c ∷ codes s

-- s.lstrip()
unfoldable pub lstrip : String → String
lstrip String.[] = String.[]
lstrip (String.◌∷◌ c s) = let rest = lstrip s in if is_space (code c) then rest else String.◌∷◌ c s

abbrev is_empty : String → Bool
is_empty String.[] = true
is_empty (String.◌∷◌ _ _) = false

-- s.rstrip()
unfoldable pub rstrip : String → String
rstrip String.[] = String.[]
rstrip (String.◌∷◌ c s) =
    let rest = rstrip s in
    if is_empty rest && is_space (code c) then String.[] else String.◌∷◌ c rest

-- s.strip()
unfoldable pub strip : String → String
unfolding lstrip rstrip
strip s = rstrip (lstrip s)

-- len(s.split()), where `inside` says that the character before belongs to a word
abbrev pub words_from : Bool → List ℕ → ℕ
words_from inside [] = 0
words_from true (c ∷ cs) =
    let rest = words_from true cs in
    let next = words_from false cs in if is_space c then next else rest
words_from false (c ∷ cs) =
    let rest = words_from true cs in
    let next = words_from false cs in if is_space c then next else suc rest

abbrev pub word_count : String → ℕ
word_count s = words_from false (codes s)

-- s.lower(), for letters of ASCII
abbrev lower_code : ℕ → ℕ
lower_code c = if leb 65 c && leb c 90 then c + 32 else c

abbrev lower_codes : List ℕ → List ℕ
lower_codes [] = []
lower_codes (c ∷ cs) = lower_code c ∷ lower_codes cs

abbrev codes_eq : List ℕ → List ℕ → Bool
codes_eq [] [] = true
codes_eq (a ∷ xs) (b ∷ ys) = nat_eq a b && codes_eq xs ys
codes_eq _ _ = false

-- s.lower() == t
abbrev pub lower_is : String → String → Bool
lower_is t s = codes_eq (lower_codes (codes s)) (codes t)

abbrev digit : ℕ → Option ℕ
digit c = if leb 48 c && leb c 57 then some (c - 48) else none

abbrev digits_from : ℕ → List ℕ → Option ℕ
digits_from n [] = some n
digits_from n (c ∷ cs) = elim (digit c) [ none ↦ none | some d ↦ digits_from (n * 10 + d) cs ]

abbrev nat_of_codes : List ℕ → Option ℕ
nat_of_codes [] = none
nat_of_codes (c ∷ cs) = digits_from 0 (c ∷ cs)

abbrev negative : ℕ → ℤ
negative zero = pos 0
negative (suc n) = negsuc n

abbrev signed : List ℕ → Option ℤ
signed [] = none
signed (c ∷ cs) =
    if nat_eq c 45
    then (elim (nat_of_codes cs) [ none ↦ none | some n ↦ some (negative n) ])
    else (elim (nat_of_codes (if nat_eq c 43 then cs else c ∷ cs)) [
      | none ↦ none
      | some n ↦ some (pos n)
    ])

-- int(s), for digits of ASCII
unfoldable pub int_of_text : String → Option ℤ
unfolding strip
int_of_text s = signed (codes (strip s))

-- s.split('=', 1), as what stands before the first '=' and after it
unfoldable pub split_equals : String → String × Option String
split_equals String.[] = (String.[], none)
split_equals (String.◌∷◌ c s) =
    let (key, value) = split_equals s in
    if nat_eq (code c) 61 then (String.[], some s) else (String.◌∷◌ c key, value)

-- s.split(sep, 1), as what stands before the first `sep` and after it
unfoldable pub split_once : ℕ → String → String × Option String
split_once sep String.[] = (String.[], none)
split_once sep (String.◌∷◌ c s) =
    let (part, rest) = split_once sep s in
    if nat_eq (code c) sep then (String.[], some s) else (String.◌∷◌ c part, rest)

-- '/' in s
abbrev pub has_slash : String → Bool
has_slash s = any (nat_eq 47) (codes s)

-- A character before the first part.
abbrev pub onto_first : Char → List String → List String
onto_first c [] = String.◌∷◌ c String.[] ∷ []
onto_first c (part ∷ parts) = String.◌∷◌ c part ∷ parts

-- s.split(sep), where `sep` is one character
unfoldable pub split_on : ℕ → String → List String
split_on sep String.[] = "" ∷ []
split_on sep (String.◌∷◌ c s) =
    let rest = split_on sep s in if nat_eq (code c) sep then "" ∷ rest else onto_first c rest

abbrev digit_text : ℕ → String
digit_text zero = "0"
digit_text (suc zero) = "1"
digit_text (suc (suc zero)) = "2"
digit_text (suc (suc (suc zero))) = "3"
digit_text (suc (suc (suc (suc zero)))) = "4"
digit_text (suc (suc (suc (suc (suc zero))))) = "5"
digit_text (suc (suc (suc (suc (suc (suc zero)))))) = "6"
digit_text (suc (suc (suc (suc (suc (suc (suc zero))))))) = "7"
digit_text (suc (suc (suc (suc (suc (suc (suc (suc zero)))))))) = "8"
digit_text _ = "9"

unfoldable nat_text_from : ℕ → ℕ → String
nat_text_from zero n = ""
nat_text_from (suc fuel) n =
    let tens = nat_text_from fuel (n / 10) in
    if ltb n 10 then digit_text n else tens <> digit_text (n % 10)

-- str(n)
unfoldable pub nat_text : ℕ → String
unfolding nat_text_from
nat_text n = nat_text_from (suc n) n

same_digits : (f g n : ℕ) → n < f → n < g → nat_text_from f n ≡ nat_text_from g n
unfolding nat_text_from
same_digits zero g n h k = elim h [ ]
same_digits (suc f) zero n h k = elim k [ ]
same_digits (suc f) (suc g) n h k = elim (Bool-cases (ltb n 10)) [
  | inl one ↦ rw one refl
  | inr more ↦ rw (more, same_digits f g (n / 10) (ground arith) (ground arith)) refl
]

-- Any fuel above the number is enough.
nat_text-fuel : (fuel n : ℕ) → n < fuel → nat_text_from fuel n ≡ nat_text n
unfolding nat_text
nat_text-fuel fuel n h = same_digits fuel (suc n) n h (omega arith)

-- str(n), of an integer
abbrev pub int_text : ℤ → String
int_text (pos n) = nat_text n
int_text (negsuc n) = "-" <> nat_text (suc n)
