-- ===== src/Attributes/Accepts.antt =====
-- api/v1/attributes.py: which values the validators of numbers and Booleans accept.
use apmec.Prelude.{◌≡◌, refl, ◌↔◌, Bool, false, Option, none, some, arith}
use apmec.Value.{ℤ, int_lt, Value, boolean}
use apmec.Errors.{ok}
use apmec.Attributes.Message.{Message}
use apmec.Attributes.Convert.{boolean_of, boolean_or_raise, int_of, convert_to_boolean}
use apmec.Attributes.Scalar.{
  or_check, in_range, unless_raised, below, above, validate_range, validate_boolean,
}

-- n is at least the bound, and at most the bound, if there is one.
abbrev pub AtLeast : Option ℤ → ℤ → Type 0
AtLeast none n = Unit
AtLeast (some limit) n = int_lt n limit ≡ false

abbrev pub AtMost : Option ℤ → ℤ → Type 0
AtMost none n = Unit
AtMost (some limit) n = int_lt limit n ≡ false

below_iff : (limit : Option ℤ) (n : ℤ) → (below limit n ≡ none) ↔ AtLeast limit n
below_iff none n = (λ _. tt, λ _. refl)
below_iff (some limit) n = (λ h. ground arith, λ h. rw h refl)

above_iff : (limit : Option ℤ) (n : ℤ) → (above limit n ≡ none) ↔ AtMost limit n
above_iff none n = (λ _. tt, λ _. refl)
above_iff (some limit) n = (λ h. ground arith, λ h. rw h refl)

pub or_check-none : (a b : Option Message) → (or_check a b ≡ none) ↔ ((a ≡ none) × (b ≡ none))
or_check-none none b = (λ h. (refl, h), λ h. h.1)
or_check-none (some m) b = (λ h. absurd (cc), λ h. absurd (cc))

range_iff :
    (lo hi : Option ℤ) (datum : Value) (o : Option ℤ)
    → (in_range lo hi datum o ≡ none) ↔ ((n : ℤ) × (o ≡ some n) × AtLeast lo n × AtMost hi n)
range_iff lo hi datum none = (λ h. absurd (cc), λ (n, e, _, _). absurd (cc))
range_iff lo hi datum (some n) =
    let (there, back) = or_check-none (below lo n) (above hi n) in
    (
      λ h. (n, refl, (below_iff lo n).0 (there h).0, (above_iff hi n).0 (there h).1),
      λ (m, e, p, q).
          let same : m ≡ n = cc in
          back ((below_iff lo n).1 (rw same at p), (above_iff hi n).1 (rw same at q)),
    )

-- `_validate_range` accepts a value if and only if `int` takes it to a number that is not below the
-- lower bound and not above the upper one, where they are given.
validate_range_iff :
    (min_value max_value : Option ℤ) (datum : Value)
    → (validate_range min_value max_value datum ≡ none)
      ↔ ((n : ℤ) × (int_of datum ≡ some n) × AtLeast min_value n × AtMost max_value n)
unfolding validate_range
validate_range_iff lo hi datum = range_iff lo hi datum (int_of datum)

boolean_iff :
    (datum : Value) (o : Option Bool)
    → (unless_raised datum (boolean_or_raise datum o) ≡ none)
      ↔ ((b : Bool) × (boolean_or_raise datum o ≡ ok (boolean b)))
boolean_iff datum none = (λ h. absurd (cc), λ (b, e). absurd (cc))
boolean_iff datum (some b) = (λ h. (b, refl), λ _. refl)

-- The values that `_validate_boolean` accepts are exactly those that `convert_to_boolean` converts to
-- a Boolean, and a Boolean converts to itself.
convert_to_boolean_idem :
    (datum : Value)
    → ((validate_boolean datum ≡ none) ↔ ((b : Bool) × (convert_to_boolean datum ≡ ok (boolean b))))
      × ((b : Bool) → convert_to_boolean (boolean b) ≡ ok (boolean b))
unfolding convert_to_boolean validate_boolean
convert_to_boolean_idem datum = (boolean_iff datum (boolean_of datum), λ b. refl)
